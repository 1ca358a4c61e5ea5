-- ===== src/Prefetcher/Breakpoint/Flat.antt =====
-- One memory that all processes share, as bytes: PTRACE_PEEKTEXT and PTRACE_POKETEXT read and write eight of them,
-- the lowest first. A cell's part above 256 has no meaning and is kept.
use trapfetch.Base.{
  ℕ, zero, suc, ◌+◌, ◌-◌, ◌*◌, ◌/◌, ◌%◌, ◌^◌, ◌<◌, ◌≤◌, ◌≡◌, ◌⊎◌, inl, inr, refl, ◌∙◌, ap, Bool,
  true, ◌&&◌, ltb, leb, if◌then◌else◌, arith, Bool-cases,
}
use trapfetch.Prefetcher.State.{TraceeMemory}
use trapfetch.Prefetcher.Breakpoint.Bytes.{ByteView, digit}

-- The word of some bytes from an address on.
pub word : ℕ → (ℕ → ℕ) → ℕ → ℕ
word zero m a = 0
word (suc k) m a = m a % 256 + 256 * word k m (suc a)

pub digit-word : (k i : ℕ) (m : ℕ → ℕ) (a : ℕ) → i < k → digit i (word k m a) ≡ m (a + i) % 256
unfolding word digit
digit-word zero i m a h = absurd (omega arith)
digit-word (suc k) zero m a h = let here : a + 0 ≡ a = omega arith in rw here (omega arith)
digit-word (suc k) (suc i) m a h =
    let rest : (m a % 256 + 256 * word k m (suc a)) / 256 ≡ word k m (suc a) = omega arith in
    let there : suc a + i ≡ a + suc i = omega arith in
    rw rest (digit-word k i m (suc a) (omega arith) ∙ ap (λ x. m x % 256) there)

digit-small : (i w : ℕ) → digit i w < 256
unfolding digit
digit-small zero w = omega arith
digit-small (suc i) w = digit-small i (w / 256)

pub word-small : (m : ℕ → ℕ) (a : ℕ) → word 8 m a < 2 ^ 64
unfolding word
word-small m a = omega arith

is_in : ℕ → ℕ → Bool
is_in a x = leb a x && ltb x (a + 8)

pub put : (ℕ → ℕ) → ℕ → ℕ → ℕ → ℕ
unfolding is_in
put m a w x = if is_in a x then m x / 256 * 256 + digit (x - a) w else m x

pub put_same : (m : ℕ → ℕ) (a x : ℕ) → put m a (word 8 m a) x ≡ m x
unfolding put is_in
put_same m a x = elim (Bool-cases (is_in a x)) [
  | inr e ↦ rw e refl
  | inl e ↦
      let small : x - a < 8 = ground arith in
      let at : a + (x - a) ≡ x = ground arith in
      let d : digit (x - a) (word 8 m a) ≡ m (a + (x - a)) % 256 = digit-word 8 (x - a) m a small in
      rw (e, d, at) (omega arith)
]

pub put_again : (m : ℕ → ℕ) (a v w x : ℕ) → put (put m a v) a w x ≡ put m a w x
unfolding put is_in
put_again m a v w x = elim (Bool-cases (is_in a x)) [
  | inr e ↦ rw e refl
  | inl e ↦ rw e (omega (arith, digit-small (x - a) v))
]

pub put_at : (m : ℕ → ℕ) (a w i : ℕ) → i < 8 → put m a w (a + i) % 256 ≡ digit i w
unfolding put is_in
put_at m a w i h =
    let e : is_in a (a + i) ≡ true = ground arith in
    let back : a + i - a ≡ i = omega arith in rw (e, back) (omega (arith, digit-small i w))

pub put_other : (m : ℕ → ℕ) (a w x : ℕ) → (x < a) ⊎ (a + 8 ≤ x) → put m a w x ≡ m x
unfolding put is_in
put_other m a w x h = ground arith

abbrev pub flat : TraceeMemory
flat = record {
  Mem = ℕ → ℕ;
  peek = λ p m. word 8 m;
  poke = λ p m. put m;
  poke-peek = λ p m a k x. put_same m a x k;
  poke-poke = λ p m a v w k x. put_again m a v w x k;
}

abbrev pub flat_bytes : ByteView flat
flat_bytes = record {
  Shares = λ p. Unit;
  IsCode = λ x. Unit;
  byte = λ m x. m x % 256;
  peek-word = λ p s m a. word-small m a;
  byte-peek = λ p s m a i h. digit-word 8 i m a h;
  byte-poke = λ p s m a w i h. put_at m a w i h;
  byte-poke_other = λ p s m a w x h. ap (λ v. v % 256) (put_other m a w x h);
}
