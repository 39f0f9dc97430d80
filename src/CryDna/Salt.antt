-- ===== src/CryDna/Salt.antt =====
-- src/crydna.rs: what the salt of an identity tells apart.
use cry.Base.{
  ℕ, ◌≡◌, ◌≢◌, refl, ap, ◌∙◌, sym, List, [], ◌∷◌, ◌++◌, append_assoc, append-nil, append_inj,
  Option, none, some, take, Text, All, IsU32, codes,
}
use cry.Bytes.{to_be_bytes}
use cry.Bytes.RoundTrip.{length-to_be_bytes, to_be_bytes-inj}
use cry.Crypto.{Crypto}
use cry.CryDna.{salt_input, sub_part, domain, derive_salt}

-- A text without a colon.
abbrev pub NoColon : Text → Type 0
NoColon = All (λ b. b ≢ b':')

-- Two texts that go on with a colon, and have none before it, agree up to it.
split_colon :
    (xs ys us vs : List ℕ)
    → NoColon xs
    → NoColon us
    → xs ++ (b':' ∷ ys) ≡ us ++ (b':' ∷ vs)
    → (xs ≡ us) × (ys ≡ vs)
split_colon [] ys [] vs h k e = (refl, cc)
split_colon [] ys (u ∷ us) vs h k e = let c : b':' ≡ u = cc in absurd (k.0 (sym c))
split_colon (x ∷ xs) ys [] vs h k e = let c : x ≡ b':' = cc in absurd (h.0 c)
split_colon (x ∷ xs) ys (u ∷ us) vs h k e =
    let t : xs ++ (b':' ∷ ys) ≡ us ++ (b':' ∷ vs) = cc in
    let c : x ≡ u = cc in let (p, q) = split_colon xs ys us vs h.1 k.1 t in (cc, q)

sub_part-inj : (s t : Option Text) → sub_part s ≡ sub_part t → s ≡ t
unfolding sub_part codes
sub_part-inj none none e = refl
sub_part-inj none (some t) e = absurd (cc)
sub_part-inj (some s) none e = absurd (cc)
sub_part-inj (some s) (some t) e = ap some (cc)

-- Between namespaces without a colon, and versions below 2^32, what `derive_salt` hashes
-- determines the namespace, the version and the sub-identity.
pub salt_input-inj :
    (ns ns' : Text) (v v' : ℕ) (s s' : Option Text)
    → NoColon ns
    → NoColon ns'
    → IsU32 v
    → IsU32 v'
    → salt_input ns v s ≡ salt_input ns' v' s'
    → (ns ≡ ns') × (v ≡ v') × (s ≡ s')
unfolding salt_input domain codes
salt_input-inj ns ns' v v' s s' n n' hv hv' e =
    let strip : ns ++ (b':' ∷ b'v' ∷ (to_be_bytes 4 v ++ sub_part s))
        ≡ ns' ++ (b':' ∷ b'v' ∷ (to_be_bytes 4 v' ++ sub_part s')) =
      cc in
    let (p, q) = split_colon ns _ ns' _ n n' strip in
    let behind : to_be_bytes 4 v ++ sub_part s ≡ to_be_bytes 4 v' ++ sub_part s' = cc in
    let (a, b) =
      append_inj (to_be_bytes 4 v) (sub_part s) (to_be_bytes 4 v') (sub_part s')
        (length-to_be_bytes 4 v ∙ sym (length-to_be_bytes 4 v')) behind in
    (p, to_be_bytes-inj 4 v v' hv hv' a, sub_part-inj s s' b)

-- For any namespace, label and versions, the sub-identity whose label goes on with `:v` and the
-- bytes of the second version has the salt of a namespace with colons in it, under the second
-- version and without sub-identity.
pub derive_salt_collision :
    (c : Crypto) (ns : Text) (v v' : ℕ) (label : Text)
    → derive_salt c ns v (some (label ++ (codes ":v" ++ to_be_bytes 4 v')))
      ≡ derive_salt c (ns ++ (codes ":v" ++ (to_be_bytes 4 v ++ (codes ":sub:" ++ label)))) v' none
unfolding derive_salt salt_input domain codes
derive_salt_collision c ns v v' label =
    ap (λ xs. take 16 (c.sha256 xs)) (simp (append_assoc, append-nil))
