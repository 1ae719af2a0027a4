-- ===== src/Examples/Halves.antt =====
-- The copy of the kernel's half between two tables that are still empty.
use almeida_os.Base.{
  ℕ, suc, ◌%◌, ◌^◌, ◌<◌, ◌≡◌, refl, ap, ◌∙◌, subst, inl, inr, [], arith, ◌==◌, if◌then◌else◌, ==→eq,
  eq→==, Bool-cases,
}
use almeida_os.Paging.{PageTable}
use almeida_os.Paging.Walk.{Owners, IsTree}
use almeida_os.Task.Create.{copy_kernel_half}
use almeida_os.Task.Shared.{SharesKernel, copy_kernel_half_lem}

abbrev table_at : ℕ → PageTable
table_at root = record {
  phys_root = root;
  virt_root = root;
  pfdb = record { free = []; used = [] };
  memory = λ _. 0;
}

abbrev only : ℕ → Owners
only root = record { level = λ f. if f == root then 4 else 0; region = λ _. 0 }

table_at-IsTree : (root : ℕ) → root % 4096 ≡ 0 → root < 2 ^ 40 → IsTree (only root) (table_at root)
table_at-IsTree root a b = record {
  root_level = rw (eq→== root root refl) refl;
  root_region = refl;
  fresh = tt;
  frame = λ f l e. elim (Bool-cases (f == root)) [
    | inl g ↦ let same = ==→eq f root g in (ap (λ x. x % 4096) same ∙ a, omega arith)
    | inr g ↦
        let none_ : 0 ≡ suc l = subst (λ x. (if x then 4 else 0) ≡ suc l) g e in
        absurd (omega arith)
  ];
  entry = λ f l i e h. inl refl;
}

halves_example : SharesKernel (table_at 4096) (table_at 8192) (copy_kernel_half 8192 4096 (λ _. 0))
halves_example =
    copy_kernel_half_lem (only 4096) (only 8192) (table_at 4096) (table_at 8192)
      (table_at-IsTree 4096 refl (omega arith)) (table_at-IsTree 8192 refl (omega arith)) refl refl
