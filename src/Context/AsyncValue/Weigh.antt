-- ===== src/Context/AsyncValue/Weigh.antt =====
-- Sums over the waiters of a store and over the jobs, by a weight for each waiter.
use async_lib.Base.{ℕ, ◌+◌, ◌<◌, ◌≡◌, refl, ap, sym, ◌∙◌, arith, List, [], ◌∷◌, map}
use async_lib.Base.Family.{update, update_self, update_ne}
use async_lib.Base.Sums.{weigh, total, total_same, total_at}
use async_lib.Context.AsyncValue.{
  Waiter, Job, notify, release, AsyncValue, Store, set_value, allocate,
}
use async_lib.Context.AsyncValue.Refs.{RefsOnly}

module _ (w : Waiter → ℕ) (r : ℕ) where
  -- A notification weighs as its waiter, and the end of a forwarding closure weighs `r`.
  abbrev pub job_weight : Job → ℕ
  job_weight (notify x) = w x
  job_weight (release i) = r

  pub weigh-notify : (ws : List Waiter) → weigh job_weight (map notify ws) ≡ weigh w ws
  weigh-notify [] = refl
  weigh-notify (x ∷ ws) = omega (arith, weigh-notify ws)

module _ {V E : Type 0} (w : Waiter → ℕ) where
  -- The waiters of all values.
  abbrev pub pending : Store V E → ℕ
  pending h = total h.allocated (λ i. weigh w (h.value i).waiters)

  pub pending-set_value :
      (h : Store V E) (i : ℕ) (v : AsyncValue V E)
      → i < h.allocated
      → pending (set_value i v h) + weigh w (h.value i).waiters ≡ pending h + weigh w v.waiters
  pending-set_value h i v lt =
      total_at h.allocated i (λ j. weigh w (h.value j).waiters)
        (λ j. weigh w (update h.value i v j).waiters) lt
        (λ j ne. ap (λ x. weigh w x.waiters) (sym (update_ne h.value i v j (λ e. ne (sym e)))))
      ∙ ap (λ x. pending h + weigh w x.waiters) (update_self h.value i v)

  pub pending-allocate :
      (h : Store V E) (v : AsyncValue V E) → pending (allocate v h) ≡ pending h + weigh w v.waiters
  pending-allocate h v = omega (
    arith,
    unfold_last,
    total_same h.allocated (λ j. weigh w (update h.value h.allocated v j).waiters)
        (λ j. weigh w (h.value j).waiters)
        (λ j lt. ap (λ x. weigh w x.waiters) (update_ne h.value h.allocated v j (omega arith))),
    ap (λ x. weigh w x.waiters) (update_self h.value h.allocated v),
  )
    where
      unfold_last :
          pending (allocate v h)
          ≡ total h.allocated (λ j. weigh w (update h.value h.allocated v j).waiters)
            + weigh w (update h.value h.allocated v h.allocated).waiters
      unfold_last = refl

  pub pending-RefsOnly : (h h' : Store V E) → RefsOnly h h' → pending h' ≡ pending h
  pending-RefsOnly h h' o =
      ap (λ n. total n (λ i. weigh w (h'.value i).waiters)) o.bounds
      ∙ total_same h.allocated (λ i. weigh w (h'.value i).waiters)
          (λ i. weigh w (h.value i).waiters) (λ i lt. ap (λ v. weigh w v.waiters) (o.values i))
