-- ===== src/Ws/Manager/Tests/Forms.antt =====
-- Values written as numbers, and read back.
use ts_store.Prelude.{
  ℕ, zero, suc, ◌≡◌, refl, ap, ◌∙◌, Bool, true, false, Option, none, some, List, [], ◌∷◌, length,
}
use ts_store.Prelude.Int.{ℤ, pos, negsuc}
use ts_store.Prelude.Equality.{Bytes, bytes_eq}

-- A value in front of other numbers, and how it is read back.
pub record Form (A : Type 0) : Type 0 where
  pub write : A → List ℕ → List ℕ
  pub read : List ℕ → Option (A × List ℕ)
  pub law : (a : A) (rest : List ℕ) → read (write a rest) ≡ some (a, rest)

abbrev pub number : Form ℕ
number = record {
  write = λ n rest. n ∷ rest;
  read = λ l. elim l [ [] ↦ none | n ∷ rest ↦ some (n, rest) ];
  law = λ n rest. refl;
}

module _ {A B : Type 0} (f : Form A) (g : Form B) where
  abbrev read_second : Option (A × List ℕ) → Option ((A × B) × List ℕ)
  read_second none = none
  read_second (some (a, rest)) = elim (g.read rest) [
    | none ↦ none
    | some (b, more) ↦ some ((a, b), more)
  ]

  pub both_law :
      (a : A) (b : B) (rest : List ℕ)
      → read_second (f.read (f.write a (g.write b rest))) ≡ some ((a, b), rest)
  both_law a b rest =
      ap read_second (f.law a (g.write b rest))
      ∙ ap
          (λ o. elim o as (λ _. Option ((A × B) × List ℕ)) [
            | none ↦ none
            | some (y, more) ↦ some ((a, y), more)
          ])
          (g.law b rest)

  abbrev pub both : Form (A × B)
  both = record {
    write = λ p rest. f.write p.0 (g.write p.1 rest);
    read = λ l. read_second (f.read l);
    law = λ p rest. both_law p.0 p.1 rest;
  }

module _ {A B : Type 0} (f : Form A) (to : B → A) (from : A → B)
    (same : (b : B) → from (to b) ≡ b) where
  abbrev back : Option (A × List ℕ) → Option (B × List ℕ)
  back none = none
  back (some (a, rest)) = some (from a, rest)

  pub through_law : (b : B) (rest : List ℕ) → back (f.read (f.write (to b) rest)) ≡ some (b, rest)
  through_law b rest = ap back (f.law (to b) rest) ∙ ap (λ x. some (x, rest)) (same b)

  abbrev pub through : Form B
  through = record {
    write = λ b rest. f.write (to b) rest;
    read = λ l. back (f.read l);
    law = through_law;
  }

module _ {A : Type 0} (f : Form A) where
  pub write_all : List A → List ℕ → List ℕ
  write_all [] rest = rest
  write_all (x ∷ xs) rest = f.write x (write_all xs rest)

  abbrev front : A → Option (List A × List ℕ) → Option (List A × List ℕ)
  front x none = none
  front x (some (xs, rest)) = some (x ∷ xs, rest)

  pub read_all : ℕ → List ℕ → Option (List A × List ℕ)
  read_all zero l = some ([], l)
  read_all (suc n) l = elim (f.read l) [ none ↦ none | some (x, more) ↦ front x (read_all n more) ]

  pub all_law :
      (xs : List A) (rest : List ℕ) → read_all (length xs) (write_all xs rest) ≡ some (xs, rest)
  unfolding read_all write_all
  all_law [] rest = refl
  all_law (x ∷ xs) rest =
      ap
        (λ o. elim o as (λ _. Option (List A × List ℕ)) [
          | none ↦ none
          | some (y, more) ↦ front y (read_all (length xs) more)
        ])
        (f.law x (write_all xs rest))
      ∙ ap (front x) (all_law xs rest)

  abbrev pub many : Form (List A)
  many = record {
    write = λ xs rest. length xs ∷ write_all xs rest;
    read = λ l. elim l [ [] ↦ none | n ∷ more ↦ read_all n more ];
    law = all_law;
  }

abbrev pub bytes : Form Bytes
bytes = many number

abbrev of_flag : Bool → ℕ
of_flag false = 0
of_flag true = 1

abbrev to_flag : ℕ → Bool
to_flag zero = false
to_flag (suc n) = true

pub of_to_flag : (b : Bool) → to_flag (of_flag b) ≡ b
of_to_flag true = refl
of_to_flag false = refl

abbrev of_int : ℤ → ℕ × ℕ
of_int (pos n) = (0, n)
of_int (negsuc n) = (1, n)

abbrev to_int : ℕ × ℕ → ℤ
to_int (zero, n) = pos n
to_int (suc k, n) = negsuc n

pub of_to_int : (x : ℤ) → to_int (of_int x) ≡ x
of_to_int (pos n) = refl
of_to_int (negsuc n) = refl

abbrev pub flag : Form Bool
flag = through number of_flag to_flag of_to_flag

abbrev pub int : Form ℤ
int = through (both number number) of_int to_int of_to_int
