-- ===== src/Vm/Memory/Growth.antt =====
-- How the memory of crates/vm/src/memory.rs grows, and what it costs.
use tron_rs.Prelude.{
  leb, if◌then◌else◌, Bool-cases, length, length-append, ℕ, zero, suc, ◌+◌, ◌-◌, ◌*◌, ◌/◌, ◌^◌, ◌≤◌,
  ◌≡◌, refl, sym, ap, ◌∙◌, inl, inr, arith,
}
use tron_rs.Vm.Energy.{memory_expansion_cost, word_cost}
use tron_rs.Vm.Memory.{Memory, expand_to, words, zeros}

-- The cost of so many words.
abbrev quadratic : ℕ → ℕ
quadratic w = 3 * w + w * w / 512

square_le : (c n : ℕ) → c ≤ n → c * c ≤ n * n
square_le c n h = grind arith

quadratic_le : (c n : ℕ) → c ≤ n → quadratic c ≤ quadratic n
quadratic_le c n h = omega (arith, square_le c n h)

word_cost_within : (w : ℕ) → w ≤ 2 ^ 31 → word_cost w ≡ quadratic w
unfolding word_cost
word_cost_within w h = omega (arith, square_le w (2 ^ 31) h)

expansion_within :
    (c n : ℕ) → c ≤ n → n ≤ 2 ^ 31 → memory_expansion_cost c n ≡ quadratic n - quadratic c
unfolding memory_expansion_cost
expansion_within c n h lt = ground (
  arith,
  word_cost_within c (omega arith),
  word_cost_within n lt,
  quadratic_le c n h,
  square_le n (2 ^ 31) lt,
)

length-zeros : (n : ℕ) → length (zeros n) ≡ n
unfolding zeros
length-zeros zero = refl
length-zeros (suc n) = omega (arith, length-zeros n)

-- The words after a memory of `k` words has been expanded to `end` bytes.
abbrev words_after : ℕ → ℕ → ℕ
words_after end k = if leb end (k * 32) then k else (end + 31) / 32

expands :
    (end k : ℕ) (memory : Memory)
    → length memory.bytes ≡ k * 32
    → k ≤ 2 ^ 31
    → end ≤ 2 ^ 36
    → (length (expand_to end memory).0.bytes ≡ words_after end k * 32)
      × ((expand_to end memory).1 ≡ quadratic (words_after end k) - quadratic k)
unfolding expand_to words
expands end k memory e k_le end_le =
    let n = (end + 31) / 32 in
    elim (Bool-cases (leb end (length memory.bytes))) [
      | inl fits ↦ rw fits (ground arith)
      | inr more ↦ rw more (
        ground (
          arith,
          length-append memory.bytes (zeros (n * 32 - length memory.bytes)),
          length-zeros (n * 32 - length memory.bytes),
        ),
        ground (arith, expansion_within k n),
      )
    ]

-- A memory of whole words, up to 2 ^ 36 bytes, that grows to `a` bytes and then to `b` bytes, with `a`
-- at most `b`, ends as long as one that grows to `b` bytes at once, and is charged as much in all.
expand_to-expand_to :
    (a b k : ℕ) (memory : Memory)
    → length memory.bytes ≡ k * 32
    → k ≤ 2 ^ 31
    → a ≤ b
    → b ≤ 2 ^ 36
    → (length (expand_to b (expand_to a memory).0).0.bytes ≡ length (expand_to b memory).0.bytes)
      × ((expand_to b (expand_to a memory).0).1 + (expand_to a memory).1 ≡ (expand_to b memory).1)
expand_to-expand_to a b k memory e k_le ab b_le =
    let first = expand_to a memory in
    let j = words_after a k in
    let one = expands a k memory e k_le (omega arith) in
    let two = expands b j first.0 one.0 (ground arith) b_le in
    let once = expands b k memory e k_le b_le in
    let same : words_after b j ≡ words_after b k = ground arith in
    let charged : (expand_to b first.0).1 ≡ quadratic (words_after b k) - quadratic j =
      two.1 ∙ ap (λ x. quadratic x - quadratic j) same in
    let kj = quadratic_le k j (ground arith) in
    let jb = quadratic_le j (words_after b k) (ground arith) in
    (two.0 ∙ ap (λ x. x * 32) same ∙ sym once.0, omega (arith, charged, one.1, once.1, kj, jb))
