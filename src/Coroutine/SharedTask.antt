-- ===== src/Coroutine/SharedTask.antt =====
-- async/coroutine/shared_task.h: one coroutine that several others await. Each access to `mWaiters`
-- is a step of its own, and so is the resumption of a waiter.
pub mod Inv
pub mod Moves
pub mod Awaited
mod Tests
use async_lib.Base.{
  ℕ, zero, suc, ◌+◌, ◌<◌, ◌≡◌, Bool, true, false, List, [], ◌∷◌, ◌==◌, if◌then◌else◌,
}
use async_lib.Base.Family.{update}

-- What `mWaiters` stands for: not started, the value is ready, or the waiters, the last to come first.
pub data Word : Type 0 where
  not_started ready : Word
  waiting : List ℕ → Word

-- Its value as a pointer, `this`, `&mWaiters`, null, or the head of the list.
pub data Pointer : Type 0 where
  this_waiters this_promise null : Pointer
  head : ℕ → Pointer

abbrev pub pointer : Word → Pointer
pointer not_started = this_waiters
pointer ready = this_promise
pointer (waiting []) = null
pointer (waiting (i ∷ l)) = head i

abbrev pub same_pointer : Pointer → Pointer → Bool
same_pointer this_waiters this_waiters = true
same_pointer this_promise this_promise = true
same_pointer null null = true
same_pointer (head i) (head j) = i == j
same_pointer _ _ = false

abbrev pub waiters : Word → List ℕ
waiters (waiting l) = l
waiters _ = []

-- Where an awaiting coroutine is: before await_ready, before the load in TryAwait, before the
-- exchange that starts the task, in `coroutine.resume()`, in the loop with `oldWaiters`, suspended,
-- or past the await.
pub data Stage : Type 0 where
  idle checking claiming starting : Stage
  enqueuing : Pointer → Stage
  suspended continuing : Stage

-- `resuming` are the waiters that FinalAwaiter has still to resume; `starts` says how often the
-- coroutine was started, and `finished` that it has come to its end.
pub record SharedTask : Type 0 where
  pub word : Word
  pub resuming : List ℕ
  pub stage : ℕ → Stage
  pub starts : ℕ
  pub finished : Bool

abbrev pub init : SharedTask
init = record { word = not_started; resuming = []; stage = λ _. idle; starts = 0; finished = false }

abbrev pub go : ℕ → Stage → SharedTask → SharedTask
go i next s = record s { stage = update s.stage i next }

abbrev pub is_ready : Word → Bool
is_ready ready = true
is_ready _ = false

unfoldable pub await_ready : ℕ → SharedTask → SharedTask
await_ready i s = go i (if is_ready s.word then continuing else checking) s

unfoldable pub load : ℕ → SharedTask → SharedTask
load i s =
    go i
      (if same_pointer (pointer s.word) this_waiters then claiming else enqueuing (pointer s.word))
      s

-- The strong compare-exchange from `notStartedValue`. Where it fails it has loaded the word.
unfoldable pub claim : ℕ → SharedTask → SharedTask
claim i s =
    if same_pointer (pointer s.word) this_waiters
    then go i starting (record s { word = waiting []; starts = s.starts + 1 })
    else go i (enqueuing (pointer s.word)) s

unfoldable pub reload : ℕ → SharedTask → SharedTask
reload i s = go i (enqueuing (pointer s.word)) s

-- A round of the loop that enqueues the waiter.
unfoldable pub enqueue : ℕ → Pointer → SharedTask → SharedTask
enqueue i old s =
    if same_pointer old this_promise
    then go i continuing s
    else if same_pointer old (pointer s.word)
    then go i suspended (record s { word = waiting (i ∷ waiters s.word) })
    else go i (enqueuing (pointer s.word)) s

-- The exchange of FinalAwaiter.
unfoldable pub finish : SharedTask → SharedTask
finish s = record s { word = ready; resuming = waiters s.word; finished = true }

pub data Step (s : SharedTask) : SharedTask → Type 0 where
  asks : (i : ℕ) → s.stage i ≡ idle → Step s (await_ready i s)
  loads : (i : ℕ) → s.stage i ≡ checking → Step s (load i s)
  claims : (i : ℕ) → s.stage i ≡ claiming → Step s (claim i s)
  -- The coroutine has suspended, or has come to its end.
  returns : (i : ℕ) → s.stage i ≡ starting → Step s (reload i s)
  enqueues : (i : ℕ) (old : Pointer) → s.stage i ≡ enqueuing old → Step s (enqueue i old s)
  -- A weak compare-exchange may fail without a reason.
  fails :
      (i : ℕ) (old : Pointer)
      → s.stage i ≡ enqueuing old
      → same_pointer old this_promise ≡ false
      → Step s (reload i s)
  ends : 0 < s.starts → s.finished ≡ false → Step s (finish s)
  resumes :
      (i : ℕ) (l : List ℕ)
      → s.resuming ≡ i ∷ l
      → Step s (go i continuing (record s { resuming = l }))

pub data Steps : SharedTask → Type 0 where
  here : Steps init
  and_then : {s t : SharedTask} → Steps s → Step s t → Steps t
