-- ===== src/Support/ConcurrentVector/Laws.antt =====
-- The concurrent vector against a list, and readers that hold an old state word.
use async_lib.Base.{
  ℕ, zero, suc, ◌+◌, ◌-◌, ◌*◌, ◌^◌, ◌≤◌, ◌<◌, ◌≡◌, ◌⊎◌, refl, ap, ap₂, sym, subst, ◌∙◌, arith,
  Option, none, some, List, [], ◌∷◌, ◌++◌, length, length-append, get_elem?, ltb, Bool-cases, inl,
  inr,
}
use async_lib.Support.ConcurrentVector.{
  Buffer, State, decode, encode, ConcurrentVector, init, read, read_in, emplace_back,
}

-- A state of two halves of 32 bits survives the word, and a word of 64 bits survives the state.
pub encode-decode :
    (s : State) (w : ℕ)
    → s.last_allocated < 2 ^ 32
    → s.size < 2 ^ 32
    → w < 2 ^ 64
    → (decode (encode s) ≡ s) × (encode (decode w) ≡ w)
unfolding encode decode
encode-decode s w a b h =
    (ap₂ (λ l n. record { last_allocated = l; size = n }) (omega arith) (omega arith), omega arith)

loaded_state : (s : State) → s.last_allocated < 2 ^ 32 → s.size < 2 ^ 32 → decode (encode s) ≡ s
loaded_state s a b = (encode-decode s 0 a b (omega arith)).0

get_elem?-append :
    {A : Type 0} (xs ys : List A) (i : ℕ) (y : A)
    → get_elem? xs i ≡ some y
    → get_elem? (xs ++ ys) i ≡ some y
get_elem?-append [] ys i y e = absurd (ground arith)
get_elem?-append (x ∷ xs) ys zero y e = e
get_elem?-append (x ∷ xs) ys (suc i) y e = get_elem?-append xs ys i y e

get_elem?-last : {A : Type 0} (xs : List A) (y : A) → get_elem? (xs ++ y ∷ []) (length xs) ≡ some y
get_elem?-last [] y = refl
get_elem?-last (x ∷ xs) y = get_elem?-last xs y

-- What stands at `k` when the last entry is exchanged.
get_elem?-exchanged :
    {A : Type 0} (xs : List A) (y y' : A) (k : ℕ) (b : A)
    → get_elem? (xs ++ y ∷ []) k ≡ some b
    → (get_elem? (xs ++ y' ∷ []) k ≡ some b) ⊎ ((y ≡ b) × (get_elem? (xs ++ y' ∷ []) k ≡ some y'))
get_elem?-exchanged [] y y' zero b e = inr (cc, refl)
get_elem?-exchanged [] y y' (suc k) b e = absurd (ground arith)
get_elem?-exchanged (x ∷ xs) y y' zero b e = inl e
get_elem?-exchanged (x ∷ xs) y y' (suc k) b e = get_elem?-exchanged xs y y' k b e

module _ {T : Type 0} where
  -- The vector holds the list `l`.
  pub record Holds (v : ConcurrentVector T) (l : List T) : Type 0 where
    pub items : v.last.items ≡ l
    pub fits : length l ≤ v.last.room
    pub roomy : 1 ≤ v.last.room
    pub buffers : length v.older ≤ length l
    pub word : v.state ≡ encode (record { last_allocated = length v.older; size = length l })
    pub bound : length l < 2 ^ 32

  -- A reader that loaded the word `w` while the vector held `l` still reads `l`.
  pub Serves : ConcurrentVector T → ℕ → List T → Type 0
  Serves v w l = (i : ℕ) (y : T) → get_elem? l i ≡ some y → read i w v ≡ some y

  emplace_back-Holds :
      (x : T) (v : ConcurrentVector T) (l : List T)
      → Holds v l
      → length l + 1 < 2 ^ 32
      → Holds (emplace_back x v).1 (l ++ x ∷ []) × ((emplace_back x v).0 ≡ length l)
  unfolding emplace_back
  emplace_back-Holds x v l h b = elim (Bool-cases (ltb (length v.last.items) v.last.room)) [
    | inl e ↦ rw e (
      record {
        items = ap (λ l. l ++ x ∷ []) h.items;
        fits = ground (arith, more, ap length h.items);
        roomy = h.roomy;
        buffers = omega (arith, more, h.buffers);
        word = ap encode (ap₂ state_of loaded_last (grown more));
        bound = omega (arith, more);
      },
      before,
    )
    | inr e ↦ rw e (
      record {
        items = ap (λ l. l ++ x ∷ []) h.items;
        fits = omega (arith, more, h.fits, h.roomy);
        roomy = omega (arith, h.roomy);
        buffers = omega (arith, more, h.buffers, length-append v.older (v.last ∷ []));
        word = ap encode (
            ap₂ state_of (omega (arith, loaded_last, length-append v.older (v.last ∷ [])))
              (grown more));
        bound = omega (arith, more);
      },
      before,
    )
  ]
    where
      state_of : ℕ → ℕ → State
      state_of n k = record { last_allocated = n; size = k }

      more : length (l ++ x ∷ []) ≡ length l + 1
      more = length-append l (x ∷ [])

      loaded : decode v.state ≡ state_of (length v.older) (length l)
      loaded =
          ap decode h.word
          ∙ loaded_state (state_of (length v.older) (length l)) (omega (arith, h.buffers, h.bound))
              h.bound

      loaded_last : (decode v.state).last_allocated ≡ length v.older
      loaded_last = ap (λ s. s.last_allocated) loaded

      loaded_size : (decode v.state).size ≡ length l
      loaded_size = ap (λ s. s.size) loaded

      grown : length (l ++ x ∷ []) ≡ length l + 1 → (decode v.state).size + 1 ≡ length (l ++ x ∷ [])
      grown m = omega (arith, loaded_size)

      before : (decode v.state).size + 1 - 1 ≡ length l
      before = omega (arith, loaded_size)

  -- Reading through the buffer that a loaded word names.
  emplace_back-Serves :
      (x : T) (v : ConcurrentVector T) (w : ℕ) (l : List T)
      → Serves v w l
      → Serves (emplace_back x v).1 w l
  unfolding emplace_back Serves read
  emplace_back-Serves x v w l s i y e =
      let (b, here, there) = through (get_elem? (v.older ++ v.last ∷ []) k) refl (s i y e) in
      elim (Bool-cases (ltb (length v.last.items) v.last.room)) [
        | inl r ↦
            rw r
              (elim (get_elem?-exchanged v.older v.last
                (record v.last { items = v.last.items ++ x ∷ [] }) k b here) [
                  | inl same ↦ ap (λ o. read_in o i) same ∙ there
                  | inr (is_last, new) ↦
                      ap (λ o. read_in o i) new
                      ∙ get_elem?-append v.last.items (x ∷ []) i y
                          (ap (λ b. get_elem? b.items i) is_last ∙ there)
                ])
        | inr r ↦ rw r (
            ap (λ o. read_in o i) (get_elem?-append (v.older ++ v.last ∷ []) (bigger ∷ []) k b here)
            ∙ there)
      ]
    where
      k : ℕ
      k = (decode w).last_allocated

      bigger : Buffer T
      bigger = record { items = v.last.items ++ x ∷ []; room = v.last.room * 2 }

      through :
          (o : Option (Buffer T))
          → get_elem? (v.older ++ v.last ∷ []) k ≡ o
          → read_in o i ≡ some y
          → (b : Buffer T) × (get_elem? (v.older ++ v.last ∷ []) k ≡ some b)
            × (get_elem? b.items i ≡ some y)
      through none o r = absurd (ground arith)
      through (some b) o r = (b, o, r)

  -- All elements appended, in order, with their indices.
  unfoldable pub emplace_all : List T → ConcurrentVector T → List ℕ × ConcurrentVector T
  emplace_all [] v = ([], v)
  emplace_all (x ∷ xs) v =
      let (i, v1) = emplace_back x v in let (is, v2) = emplace_all xs v1 in (i ∷ is, v2)

  -- `n`, `n + 1` and so on, one for each element.
  abbrev pub numbered : ℕ → List T → List ℕ
  numbered n [] = []
  numbered n (x ∷ xs) = n ∷ numbered (n + 1) xs

  Holds-Serves : (v : ConcurrentVector T) (l : List T) → Holds v l → Serves v v.state l
  unfolding Serves read
  Holds-Serves v l h i y e =
      ap (λ k. read_in (get_elem? (v.older ++ v.last ∷ []) k) i) loaded
      ∙ ap (λ o. read_in o i) (get_elem?-last v.older v.last)
      ∙ ap (λ l. get_elem? l i) h.items
      ∙ e
    where
      state_of : State
      state_of = record { last_allocated = length v.older; size = length l }

      loaded : (decode v.state).last_allocated ≡ length v.older
      loaded =
          ap (λ w. (decode w).last_allocated) h.word
          ∙ ap (λ s. s.last_allocated)
              (loaded_state state_of (omega (arith, h.buffers, h.bound)) h.bound)

  append_cons : (l : List T) (x : T) (xs : List T) → (l ++ x ∷ []) ++ xs ≡ l ++ x ∷ xs
  append_cons [] x xs = refl
  append_cons (y ∷ l) x xs = ap (λ l. y ∷ l) (append_cons l x xs)

  emplace_all-Serves :
      (xs : List T) (v : ConcurrentVector T) (w : ℕ) (l : List T)
      → Serves v w l
      → Serves (emplace_all xs v).1 w l
  unfolding emplace_all
  emplace_all-Serves [] v w l s = s
  emplace_all-Serves (x ∷ xs) v w l s =
      emplace_all-Serves xs (emplace_back x v).1 w l (emplace_back-Serves x v w l s)

  pub emplace_all-Holds :
      (xs : List T) (v : ConcurrentVector T) (l : List T)
      → Holds v l
      → length l + length xs < 2 ^ 32
      → Holds (emplace_all xs v).1 (l ++ xs) × ((emplace_all xs v).0 ≡ numbered (length l) xs)
  unfolding emplace_all
  emplace_all-Holds [] v l h b = (subst (Holds v) (sym (append_nil l)) h, refl)
    where
      append_nil : (l : List T) → l ++ [] ≡ l
      append_nil [] = refl
      append_nil (y ∷ l) = ap (λ l. y ∷ l) (append_nil l)
  emplace_all-Holds (x ∷ xs) v l h b =
      let (h1, i) = emplace_back-Holds x v l h (omega arith) in
      let n = length-append l (x ∷ []) in
      let (h2, is) = emplace_all-Holds xs (emplace_back x v).1 (l ++ x ∷ []) h1 (omega arith) in
      (
        subst (Holds _) (append_cons l x xs) h2,
        ap₂ (λ i is. i ∷ is) i (is ∙ ap (λ n. numbered n xs) n),
      )

  -- As long as there are fewer than 2 ^ 32 elements, appending to a vector that holds `l` appends to
  -- the list and returns the positions. A reader with any word that the vector had while it held `l`
  -- still reads `l`, also after the buffers have grown, and the vector's own word reads all.
  pub emplace_all_lem :
      (xs : List T) (v : ConcurrentVector T) (l : List T)
      → Holds v l
      → length l + length xs < 2 ^ 32
      → Holds (emplace_all xs v).1 (l ++ xs)
        × ((emplace_all xs v).0 ≡ numbered (length l) xs)
        × Serves (emplace_all xs v).1 v.state l
        × Serves (emplace_all xs v).1 (emplace_all xs v).1.state (l ++ xs)
  emplace_all_lem xs v l h b =
      let (h', is) = emplace_all-Holds xs v l h b in
      (
        h',
        is,
        emplace_all-Serves xs v v.state l (Holds-Serves v l h),
        Holds-Serves (emplace_all xs v).1 (l ++ xs) h',
      )

  pub init-Holds : (n : ℕ) → n < 2 ^ 32 → Holds (init {T = T} n) []
  unfolding init encode
  init-Holds n h = record {
    items = refl;
    fits = omega arith;
    roomy = ground arith;
    buffers = omega arith;
    word = ground arith;
    bound = ground arith;
  }
