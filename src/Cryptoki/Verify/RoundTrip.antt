-- ===== src/Cryptoki/Verify/RoundTrip.antt =====
-- HMACs that C_Sign of src/wp11_pkcs11.c makes and C_Verify checks.
use wolf_p.Prelude.{
  ℕ, ◌^◌, ◌≤◌, ◌<◌, ◌≡◌, refl, sym, ap, subst, ◌∙◌, true, false, some, Option-cases, List, length,
  arith, Result-cases, ok, ◌↔◌, inl, inr,
}
use wolf_p.Cryptoki.State.{
  word32_cut, Hash, Session, KeyObj, Library, max_sessions, session_get, key_get,
}
use wolf_p.Cryptoki.Find.{put_session}
use wolf_p.Cryptoki.Find.Batches.{session_get_put, session_get-in_use}
use wolf_p.Cryptoki.Digest.Pieces.{word32_cut_short, put-size, put-globals}
use wolf_p.Cryptoki.SignInit.{MechParam, mech_hmac_type, mech_hmac_output_size, sign_init}
use wolf_p.Cryptoki.Sign.{Signer, signature, end_sign, sign}
use wolf_p.Cryptoki.Sign.Signed.{sign_init-Started, sign_mac}
use wolf_p.Cryptoki.Verify.{
  Verifier, check_verify, check_verify_mech, verify_init, mac_answer, verify_with, verify,
}
use wolf_p.Cryptoki.Verify.Compare.{AllBytes, differing_iff, differing-same}

mech_hmac_output_size-positive :
    (mech : ℕ) (hash : Hash) → mech_hmac_type mech ≡ some hash → 1 ≤ mech_hmac_output_size mech
unfolding mech_hmac_type mech_hmac_output_size
mech_hmac_output_size-positive mech hash e = ground arith

-- A session in the middle of verifying an HMAC.
record Checks (g : Library) (h mech : ℕ) (hash : Hash) (obj : KeyObj) : Type 0 where
  session : Session
  locked : g.lock_ok ≡ true
  running : g.initialized ≡ true
  known : session_get g.sessions h ≡ some session
  active : session.verify_active ≡ true
  same_mech : session.verify_mech ≡ mech
  is_hmac : mech_hmac_type mech ≡ some hash
  has_key : key_get g.keys session.verify_key ≡ some obj

verify_mac :
    (verifier : Verifier) (h mech : ℕ) (hash : Hash) (obj : KeyObj) (data_in sig : List ℕ)
    (g : Library)
    → Checks g h mech hash obj
    → length sig ≡ mech_hmac_output_size mech
    → (verify verifier h (some data_in) (some sig) g).0
      ≡ mac_answer (verifier.hmac hash (word32_cut obj.secret) (word32_cut data_in)) sig
unfolding verify verify_with
verify_mac verifier h mech hash obj data_in sig g c size =
    let some_bytes = mech_hmac_output_size-positive mech hash c.is_hmac in
    let type_is : mech_hmac_type c.session.verify_mech ≡ some hash =
      ap mech_hmac_type c.same_mech ∙ c.is_hmac in
    let size_is : length sig ≡ mech_hmac_output_size c.session.verify_mech =
      size ∙ ap mech_hmac_output_size (sym c.same_mech) in
    ground (arith, c.locked, c.running, c.known, c.active, c.has_key, type_is, size_is, some_bytes)

verify_init-Checks :
    (h mech key : ℕ) (hash : Hash) (p : MechParam) (obj : KeyObj) (g : Library)
    → length g.sessions ≡ max_sessions
    → mech_hmac_type mech ≡ some hash
    → key_get g.keys key ≡ some obj
    → (verify_init h (some (mech, p)) key g).0 ≡ ok tt
    → Checks (verify_init h (some (mech, p)) key g).1 h mech hash obj
unfolding verify_init check_verify put_session
verify_init-Checks h mech key hash p obj g size is_hmac has_key e =
    elim (Option-cases (session_get g.sessions h)) [
      | inl unknown ↦ absurd (ground arith)
      | inr (s, known) ↦ elim (Result-cases (check_verify_mech s obj mech p)) [
        | inr (code, fails) ↦ absurd (ground arith)
        | inl (pss, fine) ↦
            let s' = record s {
              verify_active = true;
              verify_mech = mech;
              verify_key = key;
              pss_verify = pss;
            } in
            let run : (verify_init h (some (mech, p)) key g).1 ≡ put_session g h s' =
              ground arith in
            subst (λ x. Checks x h mech hash obj) (sym run)
              (record {
                session = s';
                locked = (put-globals g h s').0 ∙ ground arith;
                running = (put-globals g h s').1 ∙ ground arith;
                known =
                    session_get_put g h s s' known size (session_get-in_use g.sessions h s known);
                active = refl;
                same_mech = refl;
                is_hmac = is_hmac;
                has_key = put_keys g h s' key ∙ has_key;
              })
      ]
    ]
  where
    put_keys :
        (g : Library) (h : ℕ) (s : Session) (k : ℕ)
        → key_get (put_session g h s).keys k ≡ key_get g.keys k
    put_keys g h s k = refl

-- The answer for a computed MAC.
mac_answer_iff :
    (computed sig : List ℕ)
    → AllBytes computed
    → AllBytes sig
    → length computed ≡ length sig
    → (mac_answer (some computed) sig ≡ ok tt) ↔ (computed ≡ sig)
unfolding mac_answer
mac_answer_iff computed sig c s same =
    let (there, back) = differing_iff computed sig c s same in
    ((λ e. there (ground arith)), (λ e. let equal = back e in ground (arith, equal)))

-- With an HMAC mechanism, C_Verify accepts exactly the MAC: in a session table of full size, after a
-- successful C_VerifyInit with an HMAC mechanism and a key, and if wolfCrypt computes a MAC of the
-- mechanism's size from the key's secret and the data, each of less than 2 ^ 32 bytes, C_Verify of
-- these data and a signature of that size returns CKR_OK if and only if the signature is that MAC.
pub verify_init-verify :
    (verifier : Verifier) (h mech key : ℕ) (hash : Hash) (p : MechParam) (obj : KeyObj)
    (data_in computed sig : List ℕ) (g : Library)
    → length g.sessions ≡ max_sessions
    → mech_hmac_type mech ≡ some hash
    → key_get g.keys key ≡ some obj
    → (verify_init h (some (mech, p)) key g).0 ≡ ok tt
    → length obj.secret < 2 ^ 32
    → length data_in < 2 ^ 32
    → verifier.hmac hash obj.secret data_in ≡ some computed
    → length computed ≡ mech_hmac_output_size mech
    → length sig ≡ mech_hmac_output_size mech
    → AllBytes computed
    → AllBytes sig
    → ((verify verifier h (some data_in) (some sig) (verify_init h (some (mech, p)) key g).1).0
        ≡ ok tt)
      ↔ (computed ≡ sig)
verify_init-verify verifier h mech key hash p obj data_in computed sig g size is_hmac has_key
      started short_key short mac mac_size sig_size c s =
    let checks = verify_init-Checks h mech key hash p obj g size is_hmac has_key started in
    let g' = (verify_init h (some (mech, p)) key g).1 in
    let run = verify_mac verifier h mech hash obj data_in sig g' checks sig_size in
    let computes : verifier.hmac hash (word32_cut obj.secret) (word32_cut data_in) ≡ some computed =
      ap (λ k. verifier.hmac hash k (word32_cut data_in)) (word32_cut_short obj.secret short_key)
      ∙ ap (verifier.hmac hash obj.secret) (word32_cut_short data_in short)
      ∙ mac in
    let answer = run ∙ ap (λ o. mac_answer o sig) computes in
    let (there, back) = mac_answer_iff computed sig c s (mac_size ∙ sym sig_size) in
    ((λ e. there (sym answer ∙ e)), (λ e. answer ∙ back e))

mac_answer-same : (v : List ℕ) → mac_answer (some v) v ≡ ok tt
unfolding mac_answer
mac_answer-same v = let same = differing-same v in ground (arith, same)

sign_then_verify :
    (signer : Signer) (verifier : Verifier) (h h' mech key room : ℕ) (hash : Hash)
    (p p' : MechParam) (data_in v : List ℕ) (g : Library)
    → length g.sessions ≡ max_sessions
    → ((hash : Hash) (k bytes : List ℕ) → signer.hmac hash k bytes ≡ verifier.hmac hash k bytes)
    → mech_hmac_type mech ≡ some hash
    → (sign_init h (some (mech, p)) key g).0 ≡ ok tt
    → (sign signer h (some data_in) true (some room) (sign_init h (some (mech, p)) key g).1).0
      ≡ ok (signature v)
    → length v ≡ mech_hmac_output_size mech
    → let g' =
        (sign signer h (some data_in) true (some room) (sign_init h (some (mech, p)) key g).1).1 in
      (verify_init h' (some (mech, p')) key g').0 ≡ ok tt
      → (verify verifier h' (some data_in) (some v) (verify_init h' (some (mech, p')) key g').1).0
        ≡ ok tt
unfolding put_session end_sign
sign_then_verify signer verifier h h' mech key room hash p p' data_in v g size one_hmac is_hmac
      started signed v_size checking =
    let st = sign_init-Started g h mech key p started in
    let g1 = (sign_init h (some (mech, p)) key g).1 in
    let g' = (sign signer h (some data_in) true (some room) g1).1 in
    let s' = record st.before {
      sign_active = true;
      sign_mech = mech;
      sign_key = key;
      pss_sign = st.pss;
    } in
    let found : session_get g1.sessions h ≡ some s' =
      ap (λ x. session_get x.sessions h) st.left
      ∙ session_get_put g h st.before s' st.known size
          (session_get-in_use g.sessions h st.before st.known) in
    let has_key : key_get g1.keys key ≡ some st.obj =
      ap (λ x. key_get x.keys key) st.left ∙ st.has_key in
    let (mac, over) =
      sign_mac signer h data_in v room g1 s' st.obj hash found has_key is_hmac signed in
    let full : length g'.sessions ≡ max_sessions =
      ap (λ x. length x.sessions) over
      ∙ put-size g1 h (record s' { sign_active = false })
          (ap (λ x. length x.sessions) st.left ∙ put-size g h s' size) in
    let has_key' : key_get g'.keys key ≡ some st.obj =
      ap (λ x. key_get x.keys key) over ∙ has_key in
    let checks = verify_init-Checks h' mech key hash p' st.obj g' full is_hmac has_key' checking in
    verify_mac verifier h' mech hash st.obj data_in v (verify_init h' (some (mech, p')) key g').1
      checks v_size
    ∙ ap (λ o. mac_answer o v)
        (sym (one_hmac hash (word32_cut st.obj.secret) (word32_cut data_in)) ∙ mac)
    ∙ mac_answer-same v

-- An HMAC that C_Sign has made is accepted by C_Verify: in a session table of full size, if
-- C_SignInit with an HMAC mechanism and a key succeeds, C_Sign then makes a signature of the
-- mechanism's size, and C_VerifyInit with that mechanism and key then succeeds in the same or in
-- another session, C_Verify of the same data and this signature returns CKR_OK, if signing and
-- verifying use the same HMAC.
pub sign-verify :
    (signer : Signer) (verifier : Verifier) (h h' mech key room : ℕ) (hash : Hash)
    (p p' : MechParam) (data_in v : List ℕ) (g g1 g2 g3 : Library)
    → length g.sessions ≡ max_sessions
    → ((hash : Hash) (k bytes : List ℕ) → signer.hmac hash k bytes ≡ verifier.hmac hash k bytes)
    → mech_hmac_type mech ≡ some hash
    → sign_init h (some (mech, p)) key g ≡ (ok tt, g1)
    → sign signer h (some data_in) true (some room) g1 ≡ (ok (signature v), g2)
    → length v ≡ mech_hmac_output_size mech
    → verify_init h' (some (mech, p')) key g2 ≡ (ok tt, g3)
    → (verify verifier h' (some data_in) (some v) g3).0 ≡ ok tt
sign-verify signer verifier h h' mech key room hash p p' data_in v g g1 g2 g3 size one_hmac is_hmac
      started signed v_size checking =
    let first = ap (λ r. r.1) started in
    let second =
      ap (λ x. (sign signer h (some data_in) true (some room) x).1) first ∙ ap (λ r. r.1) signed in
    let third =
      ap (λ x. (verify_init h' (some (mech, p')) key x).1) second ∙ ap (λ r. r.1) checking in
    ap (λ x. (verify verifier h' (some data_in) (some v) x).0) (sym third)
    ∙ sign_then_verify signer verifier h h' mech key room hash p p' data_in v g size one_hmac
        is_hmac (ap (λ r. r.0) started)
        (ap (λ x. (sign signer h (some data_in) true (some room) x).0) first ∙ ap (λ r. r.0) signed)
        v_size
        (ap (λ x. (verify_init h' (some (mech, p')) key x).0) second ∙ ap (λ r. r.0) checking)
