-- ===== src/Cryptoki/Digest/Pieces.antt =====
-- Digests in pieces and in one call, in src/wp11_pkcs11.c.
use wolf_p.Prelude.{
  ℕ, ◌-◌, ◌%◌, ◌^◌, ◌≤◌, ◌<◌, ◌≡◌, refl, sym, ap, ◌∙◌, subst, Bool, true, false, some, Option-cases,
  List, [], ◌∷◌, ◌++◌, length, length-append, length-set, take, take-length-append, arith, ok, inl,
  inr,
}
use mathlib.Core.List.{append_assoc, append-nil}
use wolf_p.Cryptoki.State.{word32_cut, Session, Library, max_sessions, session_get}
use wolf_p.Cryptoki.Find.{put_session}
use wolf_p.Cryptoki.Find.Batches.{session_get_put, session_get-in_use}
use wolf_p.Cryptoki.Sign.{signature}
use wolf_p.Cryptoki.Digest.{
  mech_digest_output_size, knows_digest, digest_init, give_digest, digest, feed, digest_update,
  digest_final,
}

-- A session in the middle of a digest, with the data given so far.
record Digesting (g : Library) (h mech : ℕ) (given : List (List ℕ)) (multipart : Bool)
    : Type 0 where
  session : Session
  locked : g.lock_ok ≡ true
  running : g.initialized ≡ true
  known : session_get g.sessions h ≡ some session
  size : length g.sessions ≡ max_sessions
  active : session.digest_active ≡ true
  not_oneshot : session.digest_oneshot ≡ false
  pieces : session.digest_multipart ≡ multipart
  same_mech : session.digest_mech ≡ mech
  knows : knows_digest mech ≡ true
  holds : session.dig_ctx ≡ given

pub word32_cut_short : (bytes : List ℕ) → length bytes < 2 ^ 32 → word32_cut bytes ≡ bytes
word32_cut_short bytes h =
    let same : length bytes % 2 ^ 32 ≡ length bytes = omega arith in
    ap (λ n. take n bytes) same
    ∙ (ap (take (length bytes)) (sym (append-nil bytes)) ∙ take-length-append bytes [])

pub put-size :
    (g : Library) (h : ℕ) (s : Session)
    → length g.sessions ≡ max_sessions
    → length (put_session g h s).sessions ≡ max_sessions
unfolding put_session
put-size g h s size = length-set g.sessions (h - 1) s ∙ size

pub put-globals :
    (g : Library) (h : ℕ) (s : Session)
    → ((put_session g h s).lock_ok ≡ g.lock_ok) × ((put_session g h s).initialized ≡ g.initialized)
unfolding put_session
put-globals g h s = (refl, refl)

digest_init-Digesting :
    (g : Library) (h mech : ℕ)
    → length g.sessions ≡ max_sessions
    → (digest_init h (some mech) g).0 ≡ ok tt
    → Digesting (digest_init h (some mech) g).1 h mech [] false
unfolding digest_init
digest_init-Digesting g h mech size e = elim (Option-cases (session_get g.sessions h)) [
  | inl unknown ↦ absurd (ground arith)
  | inr (s, known) ↦
      let s' = record s {
        digest_active = true;
        digest_oneshot = false;
        digest_multipart = false;
        digest_mech = mech;
        dig_ctx = [];
      } in
      let run : (digest_init h (some mech) g).1 ≡ put_session g h s' = ground arith in
      let used = session_get-in_use g.sessions h s known in
      subst (λ x. Digesting x h mech [] false) (sym run)
        (record {
          session = s';
          locked = (put-globals g h s').0 ∙ ground arith;
          running = (put-globals g h s').1 ∙ ground arith;
          known = session_get_put g h s s' known size used;
          size = put-size g h s' size;
          active = refl;
          not_oneshot = refl;
          pieces = refl;
          same_mech = refl;
          knows = ground arith;
          holds = refl;
        })
]

digest_update-Digesting :
    (g : Library) (h mech : ℕ) (given : List (List ℕ)) (multipart : Bool) (piece : List ℕ)
    → length piece < 2 ^ 32
    → Digesting g h mech given multipart
    → Digesting (digest_update h (some piece) g).1 h mech (given ++ (piece ∷ [])) true
unfolding digest_update feed
digest_update-Digesting g h mech given multipart piece short d =
    let s = d.session in
    let s' = record s { digest_multipart = true; dig_ctx = s.dig_ctx ++ (word32_cut piece ∷ []) } in
    let run : (digest_update h (some piece) g).1 ≡ put_session g h s' =
      ground (arith, d.locked, d.running, d.known, d.active, d.same_mech, d.knows) in
    subst (λ x. Digesting x h mech (given ++ (piece ∷ [])) true) (sym run)
      (record {
        session = s';
        locked = (put-globals g h s').0 ∙ d.locked;
        running = (put-globals g h s').1 ∙ d.running;
        known = session_get_put g h s s' d.known d.size (session_get-in_use g.sessions h s d.known);
        size = put-size g h s' d.size;
        active = d.active;
        not_oneshot = d.not_oneshot;
        pieces = refl;
        same_mech = d.same_mech;
        knows = d.knows;
        holds =
            ap (λ x. x ++ (word32_cut piece ∷ [])) d.holds
            ∙ ap (λ x. given ++ (x ∷ [])) (word32_cut_short piece short);
      })

-- C_DigestUpdate with each of some pieces.
unfoldable pub update_all : ℕ → List (List ℕ) → Library → Library
update_all h [] g = g
update_all h (p ∷ ps) g = update_all h ps (digest_update h (some p) g).1

unfoldable pub joined : List (List ℕ) → List ℕ
joined [] = []
joined (p ∷ ps) = p ++ joined ps

update_all-Digesting :
    (pieces : List (List ℕ)) (g : Library) (h mech : ℕ) (given : List (List ℕ)) (multipart : Bool)
    → length (joined pieces) < 2 ^ 32
    → Digesting g h mech given multipart
    → (m : Bool) × Digesting (update_all h pieces g) h mech (given ++ pieces) m
unfolding update_all joined
update_all-Digesting [] g h mech given multipart short d =
    (multipart, subst (λ x. Digesting g h mech x multipart) (sym (append-nil given)) d)
update_all-Digesting (p ∷ ps) g h mech given multipart short d =
    let split = length-append p (joined ps) in
    let (m, rest) =
      update_all-Digesting ps (digest_update h (some p) g).1 h mech (given ++ (p ∷ [])) true
        (omega (arith, split))
        (digest_update-Digesting g h mech given multipart p (omega (arith, split)) d) in
    (
      m,
      subst (λ x. Digesting (update_all h ps (digest_update h (some p) g).1) h mech x m)
          (append_assoc given (p ∷ []) ps) rest,
    )

module _ (finish : ℕ → List (List ℕ) → List ℕ) (g : Library) (h mech : ℕ) (given : List (List ℕ))
    (room : ℕ) where
  digest_final-Digesting :
      (multipart : Bool)
      → Digesting g h mech given multipart
      → mech_digest_output_size mech ≤ room
      → (digest_final finish h true (some room) g).0 ≡ ok (signature (finish mech given))
  unfolding digest_final give_digest
  digest_final-Digesting multipart d fits =
      ground (
        arith, d.locked, d.running, d.known, d.active, d.not_oneshot, d.same_mech, d.knows, d.holds,
      )

  digest-Digesting :
      (data_in : List ℕ)
      → Digesting g h mech given false
      → length data_in < 2 ^ 32
      → mech_digest_output_size mech ≤ room
      → (digest finish h (some data_in) true (some room) g).0
        ≡ ok (signature (finish mech (given ++ (data_in ∷ []))))
  unfolding digest give_digest
  digest-Digesting data_in d short fits =
      let cut = word32_cut_short data_in short in
      let whole : d.session.dig_ctx ++ (word32_cut data_in ∷ []) ≡ given ++ (data_in ∷ []) =
        ap (λ x. x ++ (word32_cut data_in ∷ [])) d.holds ∙ ap (λ x. given ++ (x ∷ [])) cut in
      ground (arith, d.locked, d.running, d.known, d.active, d.pieces, d.same_mech, d.knows, whole)

-- Digesting in pieces is digesting at once: if wolfCrypt's digest depends only on the data joined, then in
-- a session table of full size, after a successful C_DigestInit, C_DigestUpdate with each of some
-- pieces and then C_DigestFinal give the same digest as C_Digest with the pieces joined, if these
-- have less than 2 ^ 32 bytes and the buffer has room for the mechanism's digest.
pub digest_final-digest :
    (finish : ℕ → List (List ℕ) → List ℕ) (g : Library) (h mech room : ℕ) (pieces : List (List ℕ))
    → ((m : ℕ) (ps : List (List ℕ)) → finish m ps ≡ finish m (joined ps ∷ []))
    → length g.sessions ≡ max_sessions
    → (digest_init h (some mech) g).0 ≡ ok tt
    → length (joined pieces) < 2 ^ 32
    → mech_digest_output_size mech ≤ room
    → ((digest_final finish h true
          (some room)
          (update_all h pieces (digest_init h (some mech) g).1)).0
        ≡ (digest finish h
            (some (joined pieces))
            true
            (some room)
            (digest_init h (some mech) g).1).0)
      × ((digest finish h (some (joined pieces)) true (some room) (digest_init h (some mech) g).1).0
          ≡ ok (signature (finish mech (joined pieces ∷ []))))
digest_final-digest finish g h mech room pieces joins size started short fits =
    let g' = (digest_init h (some mech) g).1 in
    let d = digest_init-Digesting g h mech size started in
    let (m, all) = update_all-Digesting pieces g' h mech [] false short d in
    let in_pieces =
      digest_final-Digesting finish (update_all h pieces g') h mech pieces room m all fits in
    let at_once = digest-Digesting finish g' h mech [] room (joined pieces) d short fits in
    (in_pieces ∙ (ap (λ x. ok (signature x)) (joins mech pieces) ∙ sym at_once), at_once)
