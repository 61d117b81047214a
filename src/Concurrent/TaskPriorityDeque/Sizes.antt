-- ===== src/Concurrent/TaskPriorityDeque/Sizes.antt =====
-- Size and Empty of a `TaskPriorityDeque`.
use async_lib.Base.{==_iff, ℕ, ◌+◌, ◌%◌, ◌^◌, ◌≡◌, ◌↔◌, ap, ◌∙◌, arith, true, List, length}
use async_lib.Base.Words.{bit_xor-mod_zero}
use async_lib.Concurrent.TaskDeque.{mask}
use async_lib.Concurrent.TaskDeque.Inv.{used, Inv}
use async_lib.Concurrent.TaskDeque.Window.{contents, length-window}
use async_lib.Concurrent.TaskPriorityDeque.{
  TaskPriority, critical, high, default, low, index_ext, TaskPriorityDeque, is_empty, maybe_zero,
  size, level_size,
}
use async_lib.Concurrent.TaskPriorityDeque.Level.{level}
use async_lib.Concurrent.TaskPriorityDeque.Refine.{Holds}

level_size_zero :
    (p : TaskPriority) (f b : ℕ) → (level_size p f b ≡ 0) ↔ (index_ext p f ≡ index_ext p b)
level_size_zero p f b = ground arith

same_of_indices :
    (f b : ℕ)
    → index_ext critical f ≡ index_ext critical b
    → index_ext high f ≡ index_ext high b
    → index_ext default f ≡ index_ext default b
    → index_ext low f ≡ index_ext low b
    → f % 2 ^ 44 ≡ b % 2 ^ 44
same_of_indices f b h0 h1 h2 h3 = omega arith

module _ {T : Type 0} (q : TaskPriorityDeque T) where
  level_size-length :
      (p : TaskPriority)
      → Inv (level p q)
      → level_size p q.front q.back ≡ length (contents (level p q))
  level_size-length p v = ground (
    arith,
    v.bounded,
    length-window (q.array p) (mask (index_ext p q.back))
        (used (index_ext p q.front) (index_ext p q.back)),
  )

  module _ (v : TaskPriority → List T) (h : Holds q v) where
    -- How many tasks the deque holds.
    pub size-lengths :
        size q ≡ length (v critical) + length (v high) + length (v default) + length (v low)
    unfolding size
    size-lengths = omega (arith, here critical, here high, here default, here low)
      where
        here : (p : TaskPriority) → level_size p q.front q.back ≡ length (v p)
        here p = level_size-length p (h.valid p) ∙ ap length (h.lists p)

    zero_size : q.front % 2 ^ 44 ≡ q.back % 2 ^ 44 → size q ≡ 0
    unfolding size
    zero_size e = omega (
      arith,
      (level_size_zero critical q.front q.back).1 (omega arith),
      (level_size_zero high q.front q.back).1 (omega arith),
      (level_size_zero default q.front q.back).1 (omega arith),
      (level_size_zero low q.front q.back).1 (omega arith),
    )

    pub is_empty_iff : (is_empty q ≡ true) ↔ (size q ≡ 0)
    unfolding is_empty size maybe_zero
    is_empty_iff =
        let x = bit_xor-mod_zero 44 q.front q.back in
        (
          λ e. zero_size (x.0 ((==_iff (maybe_zero q) 0).0 e)),
          λ e. (==_iff (maybe_zero q) 0).1 (
              x.1 (
                same_of_indices q.front q.back
                  ((level_size_zero critical q.front q.back).0 (omega arith))
                  ((level_size_zero high q.front q.back).0 (omega arith))
                  ((level_size_zero default q.front q.back).0 (omega arith))
                  ((level_size_zero low q.front q.back).0 (omega arith)))),
        )
