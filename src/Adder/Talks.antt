-- ===== src/Adder/Talks.antt =====
-- Which children of chapter_15/15.4.2.c answer
use apue_note.Common.{
  ℕ, ◌≡◌, refl, sym, ap, ◌∙◌, false, Option, none, some, List, [], ◌∷◌, ◌++◌, is_nil, append-nil,
  append_assoc,
}
use apue_note.Adder.{
  ℤ, print_int, add_int, answer, second_of, first_of, scan_int, Mode, by_calls, by_lines,
  by_buffers, child, exited, parent,
}

abbrev pub answers : List (List ℕ) → List ℕ
answers [] = []
answers (line ∷ lines) = answer line ++ answers lines

snoc_some : (xs : List ℕ) (x : ℕ) → is_nil (xs ++ (x ∷ [])) ≡ false
snoc_some [] x = refl
snoc_some (y ∷ xs) x = refl

second_some : (a : ℤ) (o : Option (ℤ × List ℕ)) → is_nil (second_of a o) ≡ false
second_some a none = refl
second_some a (some (b, rest)) = snoc_some (print_int (add_int a b)) b'\n'

first_some : (o : Option (ℤ × List ℕ)) → is_nil (first_of o) ≡ false
first_some none = refl
first_some (some (a, rest)) = second_some a (scan_int rest)

answer_some : (line : List ℕ) → is_nil (answer line) ≡ false
unfolding answer
answer_some line = first_some (scan_int line)

abbrev pub Prompt : Mode → Type 0
Prompt by_calls = ◌≡◌ {A = ℕ} 0 0
Prompt by_lines = ◌≡◌ {A = ℕ} 0 0
Prompt by_buffers = ⊥

child-answers :
    (mode : Mode) (bufsiz : ℕ) (line : List ℕ)
    → Prompt mode
    → child mode bufsiz [] line ≡ (answer line, [])
unfolding child
child-answers by_calls bufsiz line h = refl
child-answers by_lines bufsiz line h = refl
child-answers by_buffers bufsiz line h = absurd h

parent_loop :
    (mode : Mode) (bufsiz : ℕ) (lines : List (List ℕ)) (printed : List ℕ)
    → Prompt mode
    → parent mode bufsiz lines [] printed ≡ exited (printed ++ answers lines)
unfolding parent
parent_loop mode bufsiz [] printed h = ap exited (sym (append-nil printed))
parent_loop mode bufsiz (line ∷ lines) printed h =
    rw (child-answers mode bufsiz line h, answer_some line)
      (parent_loop mode bufsiz lines (printed ++ answer line) h
        ∙ ap exited (append_assoc printed (answer line) (answers lines)))
