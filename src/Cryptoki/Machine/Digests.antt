-- ===== src/Cryptoki/Machine/Digests.antt =====
-- The digest calls of src/wp11_pkcs11.c write back at most their session.
use wolf_p.Prelude.{
  ℕ, ◌≡◌, refl, Bool, Bool-cases, true, false, Option, none, some, Option-cases, List, [], ◌∷◌,
  ◌++◌, arith, ◌⊎◌, inl, inr,
}
use wolf_p.Cryptoki.State.{word32_cut, Session, Library, session_get, key_get}
use wolf_p.Cryptoki.Find.{put_session}
use wolf_p.Cryptoki.Digest.{
  digest_over, digest_init, give_digest, digest, feed, digest_update, digest_key, digest_final,
  knows_digest,
}
use wolf_p.Cryptoki.Machine.Touches.{Touches, Touches_or}

-- What a call may leave of the session.
abbrev Digests : Library → ℕ → Session → List ℕ → Library → Type 0
Digests g h s bytes g' =
    (g' ≡ g)
    ⊎ ((g' ≡ put_session g h (record s { digest_active = false }))
        ⊎ ((g' ≡ put_session g h (digest_over s))
            ⊎ ((g' ≡ put_session g h (record (digest_over s) { dig_ctx = [] }))
                ⊎ ((g' ≡ put_session g h (record s { digest_oneshot = true }))
                    ⊎ (g'
                        ≡ put_session g h (record s {
                          digest_multipart = true;
                          dig_ctx = s.dig_ctx ++ (word32_cut bytes ∷ []);
                        }))))))

Digests-Touches :
    (g g' : Library) (h : ℕ) (s : Session) (bytes : List ℕ)
    → session_get g.sessions h ≡ some s
    → Digests g h s bytes g'
    → Touches g h g'
Digests-Touches g g' h s bytes known (inl same) = inl same
Digests-Touches g g' h s bytes known (inr (inl e)) =
    inr (s, record s { digest_active = false }, known, (refl, refl, refl, refl, refl), e)
Digests-Touches g g' h s bytes known (inr (inr (inl e))) =
    inr (s, digest_over s, known, (refl, refl, refl, refl, refl), e)
Digests-Touches g g' h s bytes known (inr (inr (inr (inl e)))) =
    inr (s, record (digest_over s) { dig_ctx = [] }, known, (refl, refl, refl, refl, refl), e)
Digests-Touches g g' h s bytes known (inr (inr (inr (inr (inl e))))) =
    inr (s, record s { digest_oneshot = true }, known, (refl, refl, refl, refl, refl), e)
Digests-Touches g g' h s bytes known (inr (inr (inr (inr (inr e))))) = inr (
  s,
  record s { digest_multipart = true; dig_ctx = s.dig_ctx ++ (word32_cut bytes ∷ []) },
  known,
  (refl, refl, refl, refl, refl),
  e,
)

pub digest_init-Touches :
    (h : ℕ) (mechanism : Option ℕ) (g : Library) → Touches g h (digest_init h mechanism g).1
unfolding digest_init
digest_init-Touches h none g = inl (ground arith)
digest_init-Touches h (some mech) g = elim (Option-cases (session_get g.sessions h)) [
  | inl unknown ↦ inl (ground arith)
  | inr (s, known) ↦ elim (Bool-cases (knows_digest mech)) [
    | inl knows ↦
        Touches_or g _ h s
          (record s {
            digest_active = true;
            digest_oneshot = false;
            digest_multipart = false;
            digest_mech = mech;
            dig_ctx = [];
          })
          known (refl, refl, refl, refl, refl) (ground arith)
    | inr unknown ↦
        Touches_or g _ h s (record s { digest_active = false }) known (refl, refl, refl, refl, refl)
          (ground arith)
  ]
]

give_digest-Digests :
    (finish : ℕ → List (List ℕ) → List ℕ) (g : Library) (h : ℕ) (s : Session)
    (given : List (List ℕ)) (room : ℕ)
    → Digests g h s [] (give_digest finish g h s given room).1
unfolding give_digest
give_digest-Digests finish g h s given room = ground arith

feed-Digests :
    (g : Library) (h : ℕ) (s : Session) (bytes : List ℕ) → Digests g h s bytes (feed g h s bytes).1
unfolding feed
feed-Digests g h s bytes = ground arith

module _ (finish : ℕ → List (List ℕ) → List ℕ) (h : ℕ) (has_out : Bool) (g : Library) where
  pub digest-Touches :
      (data_given : Option (List ℕ)) (len : Option ℕ)
      → Touches g h (digest finish h data_given has_out len g).1
  unfolding digest
  digest-Touches data_given len = elim (Option-cases (session_get g.sessions h)) [
    | inl unknown ↦ inl (ground arith)
    | inr (s, known) ↦ Digests-Touches g _ h s [] known (go data_given len s known)
  ]
    where
      go :
          (data_given : Option (List ℕ)) (len : Option ℕ) (s : Session)
          → session_get g.sessions h ≡ some s
          → Digests g h s [] (digest finish h data_given has_out len g).1
      go none len s known = ground arith
      go (some data_in) none s known = ground arith
      go (some data_in) (some room) s known =
          ground
            (arith, give_digest-Digests finish g h s (s.dig_ctx ++ (word32_cut data_in ∷ [])) room)

  pub digest_final-Touches : (len : Option ℕ) → Touches g h (digest_final finish h has_out len g).1
  unfolding digest_final
  digest_final-Touches len = elim (Option-cases (session_get g.sessions h)) [
    | inl unknown ↦ inl (ground arith)
    | inr (s, known) ↦ Digests-Touches g _ h s [] known (go len s known)
  ]
    where
      go :
          (len : Option ℕ) (s : Session)
          → session_get g.sessions h ≡ some s
          → Digests g h s [] (digest_final finish h has_out len g).1
      go none s known = ground arith
      go (some room) s known = ground (arith, give_digest-Digests finish g h s s.dig_ctx room)

pub digest_update-Touches :
    (h : ℕ) (piece : Option (List ℕ)) (g : Library) → Touches g h (digest_update h piece g).1
unfolding digest_update
digest_update-Touches h none g = inl (ground arith)
digest_update-Touches h (some bytes) g = elim (Option-cases (session_get g.sessions h)) [
  | inl unknown ↦ inl (ground arith)
  | inr (s, known) ↦ Digests-Touches g _ h s bytes known (ground (arith, feed-Digests g h s bytes))
]

pub digest_key-Touches : (h key : ℕ) (g : Library) → Touches g h (digest_key h key g).1
unfolding digest_key
digest_key-Touches h key g = elim (Option-cases (session_get g.sessions h)) [
  | inl unknown ↦ inl (ground arith)
  | inr (s, known) ↦ elim (Option-cases (key_get g.keys key)) [
    | inl lost ↦ inl (ground arith)
    | inr (obj, found) ↦
        Digests-Touches g _ h s obj.secret known (ground (arith, feed-Digests g h s obj.secret))
  ]
]
