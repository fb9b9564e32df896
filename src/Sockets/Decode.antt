-- ===== src/Sockets/Decode.antt =====
-- What the words of chapter_16/16.3.c say of an address
use apue_note.Common.{
  ℕ, ◌+◌, ◌*◌, ◌/◌, ◌%◌, ◌≡◌, refl, sym, ap, ◌∙◌, inl, inr, Bool-cases, List, [], ◌∷◌, ◌++◌, ◌==◌,
  arith,
}
use apue_note.Sockets.Names.{
  Word, unknown_number, stream, datagram, seqpacket, raw, default, tcp, udp, passive, canon,
  numhost, numserv, v4mapped, all, flag, print_type, print_protocol, print_flags,
}

-- The bit that a word of the flags stands for
abbrev pub bit_of : Word → ℕ
bit_of passive = 1
bit_of canon = 2
bit_of numhost = 4
bit_of v4mapped = 8
bit_of all = 16
bit_of numserv = 1024
bit_of _ = 0

abbrev pub bits : List Word → ℕ
bits [] = 0
bits (w ∷ ws) = bit_of w + bits ws

bits-append : (xs ys : List Word) → bits (xs ++ ys) ≡ bits xs + bits ys
bits-append [] ys = omega arith
bits-append (x ∷ xs) ys = omega (arith, bits-append xs ys)

bits-flag : (f bit : ℕ) (w : Word) → bits (flag f bit w) ≡ f / bit % 2 * bit_of w
bits-flag f bit w = elim (Bool-cases (f / bit % 2 == 1)) [
  | inl t ↦ rw t (let e : f / bit % 2 ≡ 1 = ground arith in rw e (omega arith))
  | inr t ↦ rw t (let e : f / bit % 2 ≡ 0 = ground arith in rw e (omega arith))
]

bits-six :
    (a b c d e g : List Word)
    → 0 + bits (a ++ b ++ c ++ d ++ e ++ g) ≡ bits a + bits b + bits c + bits d + bits e + bits g
bits-six a b c d e g = omega (
  arith,
  bits-append (a ++ b ++ c ++ d ++ e) g,
  bits-append (a ++ b ++ c ++ d) e,
  bits-append (a ++ b ++ c) d,
  bits-append (a ++ b) c,
  bits-append a b,
)

-- The words of print_flags say which of the six known flags are set, for any flags.
pub bits-print_flags : (f : ℕ) → bits (print_flags f) ≡ f % 32 + f / 1024 % 2 * 1024
unfolding print_flags
bits-print_flags f = elim (Bool-cases (f == 0)) [
  | inl t ↦ rw t (let e : f ≡ 0 = ground arith in rw e refl)
  | inr t ↦ rw t (
      bits-six (flag f 1 passive) (flag f 2 canon) (flag f 4 numhost) (flag f 1024 numserv)
        (flag f 8 v4mapped) (flag f 16 all)
      ∙ (let a = bits-flag f 1 passive in
          let b = bits-flag f 2 canon in
          let c = bits-flag f 4 numhost in
          let d = bits-flag f 1024 numserv in
          let g = bits-flag f 8 v4mapped in
          let h = bits-flag f 16 all in omega (arith, a, b, c, d, g, h)))
]

-- The socket type and the protocol that a pair of words stands for
abbrev type_of_word : Word → ℕ
type_of_word stream = 1
type_of_word datagram = 2
type_of_word seqpacket = 5
type_of_word raw = 3
type_of_word (unknown_number n) = n
type_of_word _ = 0

abbrev protocol_of_word : Word → ℕ
protocol_of_word default = 0
protocol_of_word tcp = 6
protocol_of_word udp = 17
protocol_of_word raw = 255
protocol_of_word (unknown_number n) = n
protocol_of_word _ = 0

abbrev pub second : (Word → ℕ) → List Word → ℕ
second f (a ∷ b ∷ []) = f b
second f _ = 0

second-print_type : (n : ℕ) → second type_of_word (print_type n) ≡ n
unfolding print_type
second-print_type n = ground arith

second-print_protocol : (n : ℕ) → second protocol_of_word (print_protocol n) ≡ n
unfolding print_protocol
second-print_protocol n = ground arith

-- Two socket types that print the same are the same, and so are two protocols.
pub print_type-inj :
    ((m n : ℕ) → print_type m ≡ print_type n → m ≡ n)
    × ((m n : ℕ) → print_protocol m ≡ print_protocol n → m ≡ n)
print_type-inj = (
  λ m n h. sym (second-print_type m) ∙ ap (second type_of_word) h ∙ second-print_type n,
  λ m n h. sym (second-print_protocol m) ∙ ap (second protocol_of_word) h ∙ second-print_protocol n,
)
