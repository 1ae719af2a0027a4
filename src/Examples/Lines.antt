-- ===== src/Examples/Lines.antt =====
-- Regions, sorting, printing, and the parts of an address at concrete inputs.
use almeida_os.Base.{
  ℕ, ◌+◌, ◌*◌, ◌/◌, ◌≡◌, refl, ◌&&◌, not, none, [], ◌∷◌, arith, ltb, leb, ◌==◌, if◌then◌else◌, ok,
}
use almeida_os.MemMap.{Region}
use almeida_os.MemMap.Reserve.{carve}
use almeida_os.MemMap.Carve.{in_region, left_over, left_over-carve}
use almeida_os.Text.{Chars}
use almeida_os.Text.Digits.{ulltoa}
use almeida_os.Text.Reverse.{read_number, ulltoa_lem}
use almeida_os.Text.Spec.{signed_int_type, unknown_length}
use almeida_os.Text.Format.{apply_precision, apply_precision_number}
use almeida_os.Paging.{paging_calc_space_needed}
use almeida_os.RingBuffer.{RingBuffer, ringbuffer_init, ringbuffer_for_each}
use almeida_os.RingBuffer.Latest.{puts, ringbuffer_for_each-puts}
use almeida_os.Sort.{qsort}
use almeida_os.Sort.Rearrange.{Rearranged}
use almeida_os.Sort.Ends.{qsort_lem}
use almeida_os.Paging.Index.{paging_calc_space_needed_lem}

abbrev low_memory : Region
low_memory = record { base_addr = 1048576; length = 65536; type = 1 }

carve_example :
    left_over 1060000 (carve 1052672 1056768 low_memory)
    ≡ in_region 1060000 low_memory && not (leb 1052672 1060000 && ltb 1060000 1056768)
carve_example =
    left_over-carve 1060000 1052672 1056768 low_memory (omega arith) (omega arith) (omega arith)
      (omega arith)

ulltoa_example : (str : Chars) × (ulltoa 48879 16 ≡ ok str) × (read_number 16 0 str ≡ 48879)
ulltoa_example = ulltoa_lem 48879 16 (omega arith) refl

precision_example :
    apply_precision
      (record { type = signed_int_type; length = unknown_length; base = 10; precision = 5 })
      (52 ∷ 50 ∷ [])
    ≡ ([], 52 ∷ 50 ∷ [])
precision_example = apply_precision_number signed_int_type unknown_length 10 5 (52 ∷ 50 ∷ []) refl

paging_space_example :
    paging_calc_space_needed 10485761 ≡ 4096 * (1 + (10485761 + 2097151) / 2097152)
paging_space_example = paging_calc_space_needed_lem 10485761 (omega arith)

-- a buffer for three items
abbrev three_lines : RingBuffer ℕ
three_lines = record { head = none; tail = none; size = 3; items = λ i. 0 }

ring_buffer_example :
    ringbuffer_for_each (puts (λ i. i + 100) 7 (ringbuffer_init three_lines))
    ≡ ok (104 ∷ 105 ∷ 106 ∷ [])
ring_buffer_example = ringbuffer_for_each-puts (λ i. i + 100) 7 three_lines (omega arith)

abbrev unsorted : ℕ → ℕ
unsorted i = if i == 0 then 9 else if i == 1 then 4 else 7

qsort_example :
    (seed' : ℕ) × (c : ℕ → ℕ) × (qsort 3 ltb 12345 unsorted ≡ ok (seed', c))
    × Rearranged 3 unsorted c
qsort_example = qsort_lem 3 ltb 12345 unsorted
