-- ===== src/MemMap/Carve.antt =====
-- Taking a part of a region of src/kernel/arch/mem.c leaves the rest.
use almeida_os.Base.{
  ℕ, ◌+◌, ◌-◌, ◌%◌, ◌^◌, ◌≤◌, ◌<◌, ◌≡◌, sym, ◌∙◌, ◌≢◌, inl, inr, Bool, true, false, ◌&&◌, ◌||◌, not,
  Option, none, some, arith, ltb, leb, ◌==◌, ==→eq, eq→==, Bool-cases,
}
use almeida_os.MemMap.{Region}
use almeida_os.MemMap.Reserve.{carve}

-- whether an address lies in a region, and in what is left of one
abbrev pub in_region : ℕ → Region → Bool
in_region a r = leb r.base_addr a && ltb a (r.base_addr + r.length)

abbrev pub left_over : ℕ → Region × Option Region → Bool
left_over a (l, none) = in_region a l
left_over a (l, some r) = in_region a l || in_region a r

-- the same numbers bound the same addresses
interval :
    (a b l start stop : ℕ)
    → start < stop
    → b ≤ start
    → stop ≤ b + l
    → ((leb b a && ltb a start) || (leb stop a && ltb a (b + l)))
      ≡ (leb b a && ltb a (b + l)) && not (leb start a && ltb a stop)
interval a b l start stop p q r = ground arith

-- When a part of a region that does not wrap is taken, the addresses that are left are those of the
-- region that are not in the part.
pub left_over-carve :
    (a start stop : ℕ) (r : Region)
    → start < stop
    → r.base_addr ≤ start
    → stop ≤ r.base_addr + r.length
    → r.base_addr + r.length < 2 ^ 64
    → left_over a (carve start stop r) ≡ in_region a r && not (leb start a && ltb a stop)
unfolding carve
left_over-carve a start stop r p q s t =
    let req : (stop + 2 ^ 64 - start) % 2 ^ 64 ≡ stop - start = omega arith in
    let end : (r.base_addr + r.length) % 2 ^ 64 ≡ r.base_addr + r.length = omega arith in
    let short : (r.length + 2 ^ 64 - (stop - start)) % 2 ^ 64 ≡ r.length - (stop - start) =
      omega arith in
    elim (Bool-cases (start == r.base_addr)) [
      | inl e ↦
          let at_base : start ≡ r.base_addr = ==→eq _ _ e in
          rw (carve, e, req, short) (ground arith)
      | inr e ↦
          let above : start ≢ r.base_addr =
            λ z. let bad : true ≡ false = sym (eq→== _ _ z) ∙ e in cc in
          elim (Bool-cases (stop == r.base_addr + r.length)) [
            | inl f ↦
                let at_end : stop ≡ r.base_addr + r.length = ==→eq _ _ f in
                rw (carve, e, end, f, req, short) (ground arith)
            | inr f ↦
                let left : (start + 2 ^ 64 - r.base_addr) % 2 ^ 64 ≡ start - r.base_addr =
                  omega arith in
                let right : (r.base_addr + r.length + 2 ^ 64 - stop) % 2 ^ 64
                    ≡ r.base_addr + r.length - stop =
                  omega arith in
                let to_start : r.base_addr + (start - r.base_addr) ≡ start = omega arith in
                let to_end : stop + (r.base_addr + r.length - stop) ≡ r.base_addr + r.length =
                  omega arith in
                rw (carve, e, end, f, left, right, to_start, to_end)
                  (interval a r.base_addr r.length start stop p q s)
          ]
    ]
