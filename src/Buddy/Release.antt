-- ===== src/Buddy/Release.antt =====
-- What `buddy_free` of src/kernel/mm/buddy.c promises to `kfree`.
use native.Mathlib.Decide.{ℕ_discrete}
use almeida_os.Base.{ℕ, ◌+◌, ◌^◌, ◌≤◌, ◌<◌, ◌≡◌, ◌≢◌, refl, sym, ◌∙◌, false, ◌==◌, Run, ok, arith}
use almeida_os.Buddy.{unused, split, used, Slots, BuddyRef}
use almeida_os.Buddy.Coords.{IsRef, InRange, at}
use almeida_os.Buddy.Valid.{IsValid, IsFree, IsUsed, block_addr}
use almeida_os.Buddy.Retype.{retyped, retyped-IsValid, retyped-here, retyped-other}
use almeida_os.Buddy.Find.{find_slot_by_addr_lem}
use almeida_os.Buddy.FreeLaws.{merge_loop_lem}
use almeida_os.Buddy.Free.{buddy_free, merge_loop}

-- What giving back the block of order `k` at place `p` does: it ends without a halt, that block is
-- given out no more, every other one still is, and no block newly is.
pub record Released (ref : BuddyRef) (m : Slots) (k p : ℕ) (res : Run Slots) : Type 0 where
  pub slots : Slots
  pub ends : res ≡ ok slots
  pub valid : IsValid ref slots
  pub gone : ¬ IsUsed ref slots k p
  pub keeps :
      (l q : ℕ) → InRange ref l q → (l ≡ k → q ≢ p) → IsUsed ref m l q → IsUsed ref slots l q
  pub only : (l q : ℕ) → InRange ref l q → IsUsed ref slots l q → IsUsed ref m l q

module _ {ref : BuddyRef} {m : Slots} (r : IsRef ref) (h : IsValid ref m) (k p : ℕ)
    (v : InRange ref k p) (u : IsUsed ref m k p) where
  whole : (m (at ref k p)).type ≢ split
  whole e = let bad : used ≡ split = sym u.1 ∙ e in cc

  freed_type : unused ≢ split
  freed_type e = cc

  abbrev freed : Slots
  freed = retyped r h k p v u.0 whole unused freed_type

  freed-IsFree : IsFree ref freed k p
  freed-IsFree = rw (retyped-here r h k p v u.0 whole unused freed_type) (u.0, refl)

  freed-other : (l q : ℕ) → InRange ref l q → (l ≡ k → q ≢ p) → freed (at ref l q) ≡ m (at ref l q)
  freed-other = retyped-other r h k p v u.0 whole unused freed_type

  freed-only : (l q : ℕ) → InRange ref l q → IsUsed ref freed l q → IsUsed ref m l q
  freed-only l q w a = elim (ℕ_discrete l k) [
    | no b ↦ rw (freed-other l q w (λ e. absurd (b e))) at a
    | yes b ↦ elim (ℕ_discrete q p) [
      | yes c ↦ rw (b, c) u
      | no c ↦ rw (freed-other l q w (λ e. c)) at a
    ]
  ]

  free_run :
      (ptr : ℕ)
      → 0 < ptr
      → block_addr ref k p ≤ ptr
      → ptr < block_addr ref k p + 2 ^ k
      → buddy_free ref ptr m ≡ merge_loop 256 ref (at ref k p) freed
  unfolding buddy_free
  free_run ptr a b c =
      let some_address : (ptr == 0) ≡ false = ground arith in
      rw (some_address, find_slot_by_addr_lem r h ptr k p v u b c) refl

  -- For any address in a block that is given out, `buddy_free` gives that block back and no other.
  pub buddy_free_lem :
      (ptr : ℕ)
      → 0 < ptr
      → block_addr ref k p ≤ ptr
      → ptr < block_addr ref k p + 2 ^ k
      → Released ref m k p (buddy_free ref ptr m)
  buddy_free_lem ptr a b c =
      let (m', e, valid, same) =
        merge_loop_lem r 256 k p (retyped-IsValid r h k p v u.0 whole unused freed_type) v
          freed-IsFree (omega (arith, r.small)) in
      record {
        slots = m';
        ends = free_run ptr a b c ∙ e;
        valid = valid;
        gone = λ w. let bad : unused ≡ used = sym freed-IsFree.1 ∙ ((same k p v).1 w).1 in cc;
        keeps = λ l q w n x. (same l q w).0 (rw (freed-other l q w n) x);
        only = λ l q w x. freed-only l q w ((same l q w).1 x);
      }
