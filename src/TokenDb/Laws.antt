-- ===== src/TokenDb/Laws.antt =====
-- The search in the token table of src/wp11_token_db.c.
use wolf_p.Prelude.{ℕ, ◌≡◌, ◌≢◌, subst, ◌⊎◌, inl, inr, ◌↔◌, some, List, [], ◌∷◌, arith}
use wolf_p.TokenDb.{
  piv, openpgp, TokenDesc, quirk_none, quirk_short_apdu, quirk_extended_apdu, token_db, lookup_from,
  lookup, lookup_unknown,
}

-- `d` is a row of the list.
abbrev pub In : TokenDesc → List TokenDesc → Type 0
In d [] = ⊥
In d (x ∷ xs) = (x ≡ d) ⊎ In d xs

-- The row has the given pair of ids.
abbrev pub HasIds : TokenDesc → ℕ → ℕ → Type 0
HasIds d vid pid = (d.usb_vid ≡ vid) × (d.usb_pid ≡ pid)

-- No two rows of the list have the same pair of ids.
abbrev Apart : TokenDesc → List TokenDesc → Type 0
Apart d [] = Unit
Apart d (x ∷ xs) = ¬ HasIds x d.usb_vid d.usb_pid × Apart d xs

abbrev Distinct : List TokenDesc → Type 0
Distinct [] = Unit
Distinct (x ∷ xs) = Apart x xs × Distinct xs

lookup_from-In :
    (rows : List TokenDesc) (vid pid : ℕ) (d : TokenDesc)
    → lookup_from rows vid pid ≡ some d
    → In d rows × HasIds d vid pid
unfolding lookup_from
lookup_from-In [] vid pid d e = cc
lookup_from-In (x ∷ xs) vid pid d e = ground (arith, lookup_from-In xs vid pid d)

Apart-In :
    (rows : List TokenDesc) (x d : TokenDesc)
    → Apart x rows
    → In d rows
    → ¬ HasIds d x.usb_vid x.usb_pid
Apart-In [] x d a m = absurd m
Apart-In (y ∷ ys) x d (p, a) (inl e) = subst (λ z. ¬ HasIds z x.usb_vid x.usb_pid) e p
Apart-In (y ∷ ys) x d (p, a) (inr m) = Apart-In ys x d a m

In-lookup_from :
    (rows : List TokenDesc) (vid pid : ℕ) (d : TokenDesc)
    → Distinct rows
    → In d rows
    → HasIds d vid pid
    → lookup_from rows vid pid ≡ some d
unfolding lookup_from
In-lookup_from [] vid pid d u m h = absurd m
In-lookup_from (x ∷ xs) vid pid d (a, u) (inl e) h = ground arith
In-lookup_from (x ∷ xs) vid pid d (a, u) (inr m) h =
    let other : ¬ HasIds d x.usb_vid x.usb_pid = Apart-In xs x d a m in
    ground (arith, In-lookup_from xs vid pid d u m h)

token_db-Distinct : Distinct token_db
token_db-Distinct = omega arith

-- The search finds a row exactly if the row is in the table and has the two ids asked for: no two
-- rows share them, so the first match is the only one.
pub lookup_iff :
    (vid pid : ℕ) (d : TokenDesc) → (lookup vid pid ≡ some d) ↔ (In d token_db × HasIds d vid pid)
unfolding lookup
lookup_iff vid pid d = (
  lookup_from-In token_db vid pid d,
  λ (found, ids). In-lookup_from token_db vid pid d token_db-Distinct found ids,
)

-- A row's protocol is one that drives a card, and it does not claim both APDU sizes.
abbrev pub IsUsable : TokenDesc → Type 0
IsUsable d =
    ((d.proto ≡ piv) ⊎ (d.proto ≡ openpgp))
    × ((d.quirks ≡ quirk_none) ⊎ (d.quirks ≡ quirk_short_apdu) ⊎ (d.quirks ≡ quirk_extended_apdu))

-- Whatever the search finds is a row that drives a card by PIV or OpenPGP, with at most one of the
-- two APDU size flags.
pub lookup-IsUsable : (vid pid : ℕ) (d : TokenDesc) → lookup vid pid ≡ some d → IsUsable d
unfolding lookup lookup_from
lookup-IsUsable vid pid d e = (ground arith, ground arith)

-- The generic row is not found by any pair of ids, the pair (0, 0) that it carries included.
pub lookup-ne-unknown : (vid pid : ℕ) → lookup vid pid ≢ some lookup_unknown
unfolding lookup lookup_from
lookup-ne-unknown vid pid e = ground arith
