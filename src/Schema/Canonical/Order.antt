-- ===== src/Schema/Canonical/Order.antt =====
-- The canonical form of a schema does not depend on the order of the fields.
use mathlib.Core.Logic.{∥∥₁_elim}
use mathlib.Core.List.{Perm, Permᴰ}
use esphome_multicast_pubsub.Prelude.{
  ℕ, ◌≡◌, refl, ap, ap₂, ◌∙◌, true, false, List, [], ◌∷◌, map, arith, inl, inr, Bool-cases,
}
use esphome_multicast_pubsub.Topic.{Hashes}
use esphome_multicast_pubsub.Schema.{Message}
use esphome_multicast_pubsub.Schema.Canonical.{
  text_leb, insert_text, sorted, canonical_line, canonical_schema_string, schema_id,
}

text_leb-total : (s t : List ℕ) → text_leb s t ≡ false → text_leb t s ≡ true
unfolding text_leb
text_leb-total [] t e = cc
text_leb-total (x ∷ s) [] e = refl
text_leb-total (x ∷ s) (y ∷ t) e = ground (arith, text_leb-total s t, e)

text_leb-antisym : (s t : List ℕ) → text_leb s t ≡ true → text_leb t s ≡ true → s ≡ t
unfolding text_leb
text_leb-antisym [] [] e f = refl
text_leb-antisym [] (y ∷ t) e f = cc
text_leb-antisym (x ∷ s) [] e f = cc
text_leb-antisym (x ∷ s) (y ∷ t) e f =
    let heads : x ≡ y = ground (arith, e, f) in
    let tails : s ≡ t = text_leb-antisym s t (ground (arith, e, f)) (ground (arith, e, f)) in
    ap₂ (λ a b. a ∷ b) heads tails

text_leb_trans : (s t u : List ℕ) → text_leb s t ≡ true → text_leb t u ≡ true → text_leb s u ≡ true
unfolding text_leb
text_leb_trans [] t u e f = refl
text_leb_trans (x ∷ s) [] u e f = cc
text_leb_trans (x ∷ s) (y ∷ t) [] e f = cc
text_leb_trans (x ∷ s) (y ∷ t) (z ∷ u) e f = ground (arith, text_leb_trans s t u, e, f)

-- Two insertions commute.
insert_text_comm :
    (s t : List ℕ) (us : List (List ℕ))
    → insert_text s (insert_text t us) ≡ insert_text t (insert_text s us)
unfolding insert_text
insert_text_comm s t [] = elim (Bool-cases (text_leb s t)) [
  | inl st ↦ elim (Bool-cases (text_leb t s)) [
    | inl ts ↦ rw (text_leb-antisym s t st ts) refl
    | inr ts ↦ simp (st, ts)
  ]
  | inr st ↦ simp (st, text_leb-total s t st)
]
insert_text_comm s t (u ∷ us) = ground (
  arith,
  insert_text_comm s t us,
  text_leb-total s t,
  text_leb-total t s,
  text_leb-total s u,
  text_leb-total t u,
  text_leb-antisym s t,
  text_leb_trans s t u,
  text_leb_trans t s u,
  text_leb_trans s u t,
  text_leb_trans t u s,
)

sorted_perm : {s t : List (List ℕ)} → Permᴰ s t → sorted s ≡ sorted t
unfolding sorted
sorted_perm Permᴰ.nil = refl
sorted_perm (Permᴰ.cons e d) = ap₂ insert_text e (sorted_perm d)
sorted_perm (Permᴰ.swap {l = l} e f) = rw (e, f) (insert_text_comm _ _ (sorted l))
sorted_perm (Permᴰ.trans d e) = sorted_perm d ∙ sorted_perm e

map_perm : {A B : Type 0} (f : A → B) {s t : List A} → Permᴰ s t → Permᴰ (map f s) (map f t)
map_perm f Permᴰ.nil = Permᴰ.nil
map_perm f (Permᴰ.cons e d) = Permᴰ.cons (ap f e) (map_perm f d)
map_perm f (Permᴰ.swap e g) = Permᴰ.swap (ap f e) (ap f g)
map_perm f (Permᴰ.trans d e) = Permᴰ.trans (map_perm f d) (map_perm f e)

-- Two declarations of a message with the same fields in any order have the same canonical form and
-- the same SCHEMA_ID, whatever their ids.
pub canonical_any_order :
    (h : Hashes) (m n : Message)
    → Perm m.fields n.fields
    → (canonical_schema_string m ≡ canonical_schema_string n) × (schema_id h m ≡ schema_id h n)
unfolding canonical_schema_string schema_id
canonical_any_order h m n same =
    let lines : sorted (map canonical_line m.fields) ≡ sorted (map canonical_line n.fields) =
      ∥∥₁_elim same (hlevel) (λ p. sorted_perm (map_perm canonical_line p)) in
    (simp lines, simp lines)
