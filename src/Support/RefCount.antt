-- ===== src/Support/RefCount.antt =====
-- async/support/ref_count.h: ReferenceCounted objects and the RCReference handles that point to
-- them. Objects and handles are numbers; a handle that does not exist yet, or no longer, is null.
pub mod Tally
pub mod Moves
pub mod Owned
mod Tests
use async_lib.Base.{ℕ, suc, ◌+◌, ◌-◌, Bool, true, false, Option, none, some, ◌==◌, if◌then◌else◌}
use async_lib.Base.Family.{update}
use async_lib.Base.Words.{u32, sub32}

-- `count` is mRefCounted, `destroyed` says how often Destroy has run, `next` is the object to be
-- created next, and `raw` counts the references that the program holds as plain pointers.
pub record References : Type 0 where
  pub count : ℕ → ℕ
  pub destroyed : ℕ → ℕ
  pub next : ℕ
  pub raw : ℕ → ℕ
  pub handle : ℕ → Option ℕ

abbrev pub init : References
init = record { count = λ _. 0; destroyed = λ _. 0; next = 0; raw = λ _. 0; handle = λ _. none }

abbrev pub set_handle : ℕ → Option ℕ → References → References
set_handle h p s = record s { handle = update s.handle h p }

-- ReferenceCounted(), by a `new` that keeps the pointer.
unfoldable pub create : References → References
create s = record s {
  count = update s.count s.next 1;
  raw = update s.raw s.next 1;
  next = s.next + 1;
}

unfoldable pub add_ref : ℕ → References → References
add_ref o s = record s { count = update s.count o (u32 (s.count o + 1)) }

unfoldable pub drop_ref : ℕ → References → References
drop_ref o s = record s {
  count = update s.count o (sub32 (s.count o) 1);
  destroyed = if s.count o == 1 then update s.destroyed o (s.destroyed o + 1) else s.destroyed;
}

unfoldable pub is_unique : ℕ → References → Bool
is_unique o s = s.count o == 1

-- `if (mPointer) mPointer->DropRef()`.
abbrev pub drop_pointer : Option ℕ → References → References
drop_pointer none s = s
drop_pointer (some o) s = drop_ref o s

-- A plain pointer that carries a reference is given away, or received.
abbrev pub give : Option ℕ → References → References
give none s = s
give (some o) s = record s { raw = update s.raw o (s.raw o + 1) }

abbrev pub spend : Option ℕ → References → References
spend none s = s
spend (some o) s = record s { raw = update s.raw o (s.raw o - 1) }

unfoldable pub move_construct : ℕ → ℕ → References → References
move_construct h other s = set_handle other none (set_handle h (s.handle other) s)

unfoldable pub move_assign : ℕ → ℕ → References → References
move_assign h other s =
    let d = drop_pointer (s.handle h) s in set_handle other none (set_handle h (d.handle other) d)

-- ~RCReference.
unfoldable pub destroy : ℕ → References → References
destroy h s = set_handle h none (drop_pointer (s.handle h) s)

unfoldable pub reset : ℕ → Option ℕ → References → References
reset h p s = spend p (set_handle h p (drop_pointer (s.handle h) s))

unfoldable pub release : ℕ → References → References
release h s = give (s.handle h) (set_handle h none s)

-- The result of FormRef is the handle `h`, and that of TakeRef and CopyRef likewise.
unfoldable pub form_ref : ℕ → ℕ → References → References
form_ref h o s = add_ref o (set_handle h (some o) s)

unfoldable pub take_ref : ℕ → ℕ → References → References
take_ref h o s = spend (some o) (set_handle h (some o) s)

abbrev pub copy_of : ℕ → Option ℕ → References → References
copy_of h none s = set_handle h none s
copy_of h (some o) s = form_ref h o s

unfoldable pub copy_ref : ℕ → ℕ → References → References
copy_ref h from s = copy_of h (s.handle from) s

unfoldable pub swap : ℕ → ℕ → References → References
swap a b s = set_handle b (s.handle a) (set_handle a (s.handle b) s)
