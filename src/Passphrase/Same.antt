-- ===== src/Passphrase/Same.antt =====
-- src/main.rs: two readings of a passphrase from one source give the same.
use cry.Base.{
  ℕ, ◌≡◌, refl, ap, ◌∙◌, sym, List, [], ◌∷◌, ◌++◌, Option, none, some, Bool, arith, All, Text,
}
use cry.Fs.{World}
use cry.Passphrase.{Terminal, first_line}
use cry.Passphrase.Accepted.{NoBreak, EndsLine, Source}

first_line-append : (p rest : List ℕ) → All NoBreak p → EndsLine rest → first_line (p ++ rest) ≡ p
unfolding first_line
first_line-append [] [] n l = refl
first_line-append [] (b ∷ rest) n l = ground arith
first_line-append (b ∷ p) rest (n, all) l = ground (arith, first_line-append p rest all l)

-- The same terminal, or a file with the same contents.
abbrev pub SameSource : Option Text → World → World → Type 0
SameSource none w w' = Unit
SameSource (some path) w w' = w'.files path ≡ w.files path

pub Source-unique :
    (t : Terminal) (pass_file : Option Text) (confirm confirm' : Bool) (w w' : World)
    (p p' : List ℕ)
    → SameSource pass_file w w'
    → Source t pass_file confirm w p
    → Source t pass_file confirm' w' p'
    → p' ≡ p
Source-unique t none confirm confirm' w w' p p' same (a, again) (a', again') = cc
Source-unique t (some path) confirm confirm' w w' p p' same (bs, rest, f, split, n, l)
      (bs', rest', f', split', n', l') =
    let e : bs' ≡ bs = cc in
    sym (first_line-append p' rest' n' l')
    ∙ ap first_line (sym split' ∙ e ∙ split)
    ∙ first_line-append p rest n l
