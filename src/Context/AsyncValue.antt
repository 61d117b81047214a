-- ===== src/Context/AsyncValue.antt =====
-- async/context/async_value.{h,cpp}: a store of asynchronous values, whose waiters run when their
-- value becomes available. The callbacks of clients are opaque: running one records its number.
pub mod Inv
pub mod Refs
pub mod Moves
pub mod Forward
pub mod Weigh
pub mod Once
pub mod Steps
pub mod Run
mod Tests
use async_lib.Base.{
  ℕ, zero, suc, ◌+◌, Bool, true, false, Option, none, some, List, [], ◌∷◌, ◌++◌, map, if◌then◌else◌,
  ◌==◌,
}
use async_lib.Base.Words.{u32, sub32}
use async_lib.Base.Family.{update}

pub data Kind : Type 0 where
  concrete_value indirect_value : Kind

pub data StateEnum : Type 0 where
  unconstructed constructed concrete error : StateEnum

abbrev pub is_available : StateEnum → Bool
is_available unconstructed = false
is_available constructed = false
is_available concrete = true
is_available error = true

abbrev pub is_error : StateEnum → Bool
is_error error = true
is_error _ = false

abbrev pub is_concrete : StateEnum → Bool
is_concrete concrete = true
is_concrete _ = false

-- A closure that waits: a client's, or the one of `ForwardTo` with its `this2` and `value2`.
pub data Waiter : Type 0 where
  user : ℕ → Waiter
  forwards : ℕ → ℕ → Waiter

-- What is next on the thread that notifies: a notification, or the end of a forwarding closure, which
-- holds a reference.
pub data Job : Type 0 where
  notify : Waiter → Job
  release : ℕ → Job

-- The union of `mError` and `mData`.
pub data Payload (V E : Type 0) : Type 0 where
  nothing : Payload V E
  holds : V → Payload V E
  fails : E → Payload V E

-- A freed value (`live` is false) keeps its fields here, which nothing may read.
pub record AsyncValue (V E : Type 0) : Type 0 where
  pub ref_count : ℕ
  pub kind : Kind
  pub type_id : ℕ
  pub state : StateEnum
  pub waiters : List Waiter
  pub payload : Payload V E
  pub target : Option ℕ
  pub live : Bool

-- The values by number, how many there are, and the client callbacks run so far, the latest first.
pub record Store (V E : Type 0) : Type 0 where
  pub value : ℕ → AsyncValue V E
  pub allocated : ℕ
  pub log : List ℕ

module _ {V E : Type 0} where
  abbrev pub set_value : ℕ → AsyncValue V E → Store V E → Store V E
  set_value i v h = record h { value = update h.value i v }

  -- A new value with one reference.
  abbrev pub construct : Kind → ℕ → StateEnum → Payload V E → AsyncValue V E
  construct k t s p = record {
    ref_count = 1;
    kind = k;
    type_id = t;
    state = s;
    waiters = [];
    payload = p;
    target = none;
    live = true;
  }

  abbrev pub allocate : AsyncValue V E → Store V E → Store V E
  allocate v h = record (set_value h.allocated v h) { allocated = suc h.allocated }

  unfoldable pub add_ref : ℕ → ℕ → Store V E → Store V E
  add_ref count i h =
      let v = h.value i in
      if count == 0 then h else set_value i (record v { ref_count = u32 (v.ref_count + count) }) h

  abbrev pub free : ℕ → Store V E → Store V E
  free i h = set_value i (record (h.value i) { live = false }) h

  -- DropRef, with `destroy` for what Destroy does to the value.
  abbrev pub drop_with : (ℕ → Store V E → Store V E) → ℕ → ℕ → Store V E → Store V E
  drop_with destroy count i h =
      let v = h.value i in
      if v.ref_count == count
      then destroy i h
      else set_value i (record v { ref_count = sub32 v.ref_count count }) h

  -- Destroy: an indirect value drops its reference on the one that it forwards to, which is not
  -- indirect itself.
  abbrev pub destroy : ℕ → Store V E → Store V E
  destroy i h = elim (h.value i).kind [
    | concrete_value ↦ free i h
    | indirect_value ↦ elim (h.value i).target [
      | none ↦ free i h
      | some j ↦ free i (drop_with free 1 j h)
    ]
  ]

  unfoldable pub drop_ref : ℕ → ℕ → Store V E → Store V E
  drop_ref count i h = drop_with destroy count i h

  -- NotifyAvailable, with the waiters that RunWaiters is to run.
  unfoldable pub notify_available : StateEnum → ℕ → Store V E → List Job × Store V E
  notify_available s i h = (
    map notify (h.value i).waiters,
    set_value i (record (h.value i) { state = s; waiters = [] }) h,
  )

  -- EnqueueWaiter from the compare-exchange that it ends with.
  unfoldable pub enqueue_waiter : Waiter → ℕ → Store V E → List Job × Store V E
  enqueue_waiter w i h =
      let v = h.value i in
      if is_available v.state
      then (notify w ∷ [], h)
      else ([], set_value i (record v { waiters = w ∷ v.waiters }) h)

  unfoldable pub and_then : Waiter → ℕ → Store V E → List Job × Store V E
  unfolding enqueue_waiter
  and_then w i h =
      if is_available (h.value i).state then (notify w ∷ [], h) else enqueue_waiter w i h

  -- The value that is to be forwarded to, with the references moved: where `i` is indirect, its
  -- own target. `none` is a null pointer.
  abbrev pub resolve_as : Kind → Option ℕ → ℕ → Store V E → Option (ℕ × Store V E)
  resolve_as concrete_value t i h = some (i, h)
  resolve_as indirect_value none i h = none
  resolve_as indirect_value (some j) i h = some (j, drop_ref 1 i (add_ref 1 j h))

  unfoldable pub resolve : ℕ → Store V E → Option (ℕ × Store V E)
  resolve i h = resolve_as (h.value i).kind (h.value i).target i h

  unfoldable pub forward_to : ℕ → ℕ → Store V E → Option (List Job × Store V E)
  unfolding resolve notify_available and_then add_ref
  forward_to this i h =
      let s = (h.value i).state in
      if is_available s
      then elim (resolve i h) [
        | none ↦ none
        | some (j, h') ↦ some (
            notify_available s this (
              set_value this
                (record (h'.value this) { target = some j; type_id = (h'.value j).type_id }) h'))
      ]
      else some (and_then (forwards this i) i (add_ref 1 this h))

  unfoldable pub set_state_concrete : ℕ → Store V E → List Job × Store V E
  unfolding notify_available
  set_state_concrete i h = notify_available concrete i h

  unfoldable pub emplace : V → ℕ → Store V E → List Job × Store V E
  unfolding notify_available
  emplace d i h =
      notify_available concrete i (set_value i (record (h.value i) { payload = holds d }) h)

  -- The error value of an indirect one is allocated with the type number `error_type`.
  abbrev pub set_error_as : Kind → ℕ → E → ℕ → Store V E → Option (List Job × Store V E)
  set_error_as concrete_value error_type e i h =
      some (notify_available error i (set_value i (record (h.value i) { payload = fails e }) h))
  set_error_as indirect_value error_type e i h =
      forward_to i h.allocated (allocate (construct concrete_value error_type error (fails e)) h)

  unfoldable pub set_error : ℕ → E → ℕ → Store V E → Option (List Job × Store V E)
  set_error error_type e i h = set_error_as (h.value i).kind error_type e i h

  unfoldable pub step : Job → Store V E → Option (List Job × Store V E)
  unfolding forward_to drop_ref
  step (notify (user n)) h = some ([], record h { log = n ∷ h.log })
  step (notify (forwards this i)) h = elim (forward_to this i h) [
    | none ↦ none
    | some (js, h') ↦ some (js ++ release this ∷ [], h')
  ]
  step (release i) h = some ([], drop_ref 1 i h)

  -- RunWaiters with the calls that the waiters make, on fuel; `none` is a null pointer or fuel that
  -- ran out.
  unfoldable pub run_waiters : ℕ → List Job → Store V E → Option (Store V E)
  unfolding step
  run_waiters fuel [] h = some h
  run_waiters zero (j ∷ js) h = none
  run_waiters (suc fuel) (j ∷ js) h = elim (step j h) [
    | none ↦ none
    | some (js', h') ↦ run_waiters fuel (js' ++ js) h'
  ]

  -- The readers. `none` is a state in which the source asserts the contrary.
  abbrev pub get_concrete : ℕ → Store V E → Option V
  get_concrete i h = elim (h.value i).payload [ holds d ↦ some d | _ ↦ none ]

  abbrev pub get_as : Kind → Option ℕ → ℕ → Store V E → Option V
  get_as concrete_value t i h = get_concrete i h
  get_as indirect_value none i h = none
  get_as indirect_value (some j) i h = get_concrete j h

  unfoldable pub get : ℕ → Store V E → Option V
  get i h = get_as (h.value i).kind (h.value i).target i h

  abbrev pub error_of : AsyncValue V E → Option E
  error_of v = elim v.state [ error ↦ (elim v.payload [ fails e ↦ some e | _ ↦ none ]) | _ ↦ none ]

  abbrev pub error_as : Kind → Option ℕ → ℕ → Store V E → Option E
  error_as concrete_value t i h = error_of (h.value i)
  error_as indirect_value none i h = none
  error_as indirect_value (some j) i h = error_of (h.value j)

  unfoldable pub get_error_if_present : ℕ → Store V E → Option E
  get_error_if_present i h = error_as (h.value i).kind (h.value i).target i h
