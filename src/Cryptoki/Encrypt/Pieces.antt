-- ===== src/Cryptoki/Encrypt/Pieces.antt =====
-- Encryption in pieces and in one call, in src/wp11_pkcs11.c.
use wolf_p.Prelude.{
  ℕ, ◌^◌, ◌≤◌, ◌<◌, ◌≡◌, refl, sym, ap, ap₂, ◌∙◌, subst, true, false, Option, none, some,
  Option-cases, Result-cases, if◌then◌else◌, List, [], ◌∷◌, ◌++◌, ◌==◌, length, length-append,
  arith, Result, ok, err, ◌⊎◌, inl, inr,
}
use wolf_p.Cryptoki.State.{
  word32_cut, Ckr, CipherCtx, Session, KeyObj, Library, max_sessions, session_get, key_get,
}
use wolf_p.Cryptoki.Find.{put_session}
use wolf_p.Cryptoki.Find.Batches.{session_get_put, session_get-in_use}
use wolf_p.Cryptoki.Digest.Pieces.{joined, word32_cut_short, put-size, put-globals}
use wolf_p.Cryptoki.EncryptInit.{
  Cipher, CipherParam, mech_block_size, mech_has_iv, mech_required_key_type, fresh_ctx, block_setup,
  encrypt_setup, check_encrypt, encrypt_init,
}
use wolf_p.Cryptoki.Encrypt.{
  EncOut, enc_size, encrypted, enc_too_small, knows_block, ragged, ctx_after, encrypt_block,
  encrypt_with, encrypt, encrypt_part, encrypt_update,
}

-- The bytes that a call writes.
abbrev pub taken : Result Ckr EncOut → Option (List ℕ)
taken (err e) = none
taken (ok (enc_size n)) = none
taken (ok (encrypted out n)) = some out
taken (ok (enc_too_small n)) = none

abbrev pub glue : Option (List ℕ) → Option (List ℕ) → Option (List ℕ)
glue none b = none
glue (some a) none = none
glue (some a) (some b) = some (a ++ b)

-- C_EncryptUpdate with each of some pieces, and the bytes written.
unfoldable pub encrypt_pieces : Cipher → ℕ → ℕ → List (List ℕ) → Library → Option (List ℕ)
encrypt_pieces cipher h room [] g = some []
encrypt_pieces cipher h room (p ∷ ps) g =
    let (r, g') = encrypt_update cipher h (some p) true (some room) g in
    glue (taken r) (encrypt_pieces cipher h room ps g')

-- Pieces of whole blocks that fit the buffer.
abbrev pub Whole : ℕ → ℕ → List (List ℕ) → Type 0
Whole mech room [] = Unit {0}
Whole mech room (p ∷ ps) = (ragged mech p ≡ false) × (length p ≤ room) × Whole mech room ps

-- A session in the middle of an encryption.
record Encrypting (g : Library) (h mech : ℕ) (ctx : CipherCtx) : Type 0 where
  session : Session
  locked : g.lock_ok ≡ true
  running : g.initialized ≡ true
  known : session_get g.sessions h ≡ some session
  size : length g.sessions ≡ max_sessions
  active : session.encrypt_active ≡ true
  not_oneshot : session.encrypt_oneshot ≡ false
  same_mech : session.encrypt_mech ≡ mech
  knows : knows_block mech ≡ true
  holds : session.enc_ctx ≡ ctx

module _ (cipher : Cipher) (h mech room : ℕ) where
  encrypt_update-Encrypting :
      (g : Library) (ctx : CipherCtx) (p : List ℕ)
      → length p < 2 ^ 32
      → ragged mech p ≡ false
      → length p ≤ room
      → Encrypting g h mech ctx
      → (taken (encrypt_update cipher h (some p) true (some room) g).0 ≡ cipher.process mech ctx p)
        × ((cipher.process mech ctx p ≡ none)
            ⊎ Encrypting
                (encrypt_update cipher h (some p) true (some room) g).1
                h
                mech
                (ctx_after ctx p))
  unfolding encrypt_update encrypt_part
  encrypt_update-Encrypting g ctx p short whole fits d =
      let cut = word32_cut_short p short in
      let s = d.session in
      elim (Option-cases (cipher.process mech ctx p)) [
        | inl failed ↦ (
          ground (
            arith, d.locked, d.running, d.known, d.active, d.not_oneshot, d.same_mech, d.knows,
            d.holds, cut,
          ),
          inl failed,
        )
        | inr (out, made) ↦
            let s' = record s {
              encrypt_multipart = true;
              enc_ctx = ctx_after s.enc_ctx (word32_cut p);
            } in
            let run : (encrypt_update cipher h (some p) true (some room) g).1 ≡ put_session g h s' =
              ground (
                arith, d.locked, d.running, d.known, d.active, d.not_oneshot, d.same_mech, d.knows,
                d.holds, cut,
              ) in
            (
              ground (
                arith, d.locked, d.running, d.known, d.active, d.not_oneshot, d.same_mech, d.knows,
                d.holds, cut,
              ),
              inr (
                  subst (λ x. Encrypting x h mech (ctx_after ctx p)) (sym run)
                    (record {
                      session = s';
                      locked = (put-globals g h s').0 ∙ d.locked;
                      running = (put-globals g h s').1 ∙ d.running;
                      known =
                          session_get_put g h s s' d.known d.size
                            (session_get-in_use g.sessions h s d.known);
                      size = put-size g h s' d.size;
                      active = d.active;
                      not_oneshot = d.not_oneshot;
                      same_mech = d.same_mech;
                      knows = d.knows;
                      holds = ap₂ ctx_after d.holds cut;
                    })),
            )
      ]

mech_block_size_cases :
    (mech : ℕ)
    → (mech_block_size mech ≡ 0) ⊎ ((mech_block_size mech ≡ 8) ⊎ (mech_block_size mech ≡ 16))
unfolding mech_block_size
mech_block_size_cases mech = ground arith

-- Pieces of whole blocks make up whole blocks.
ragged-append :
    (mech : ℕ) (a b : List ℕ)
    → ragged mech a ≡ false
    → ragged mech b ≡ false
    → ragged mech (a ++ b) ≡ false
unfolding ragged
ragged-append mech a b wa wb = elim (mech_block_size_cases mech) [
  | inl none_needed ↦ ground arith
  | inr (inl eight) ↦ ground (arith, length-append a b)
  | inr (inr sixteen) ↦ ground (arith, length-append a b)
]

ragged-joined :
    (mech room : ℕ) (ps : List (List ℕ)) → Whole mech room ps → ragged mech (joined ps) ≡ false
unfolding ragged joined
ragged-joined mech room [] w = ground arith
ragged-joined mech room (p ∷ ps) (whole, fits, rest) =
    ragged-append mech p (joined ps) whole (ragged-joined mech room ps rest)

-- What is relied on of wolfCrypt: a context that is given whole blocks and then more gives what it
-- gives for both at once.
abbrev pub Chains : Cipher → Type 0
Chains cipher =
    ((mech : ℕ) (ctx : CipherCtx) → cipher.process mech ctx [] ≡ some [])
    × ((mech : ℕ) (ctx : CipherCtx) (a b : List ℕ)
        → ragged mech a ≡ false
        → cipher.process mech ctx (a ++ b)
          ≡ glue (cipher.process mech ctx a) (cipher.process mech (ctx_after ctx a) b))

module _ (cipher : Cipher) (chains : Chains cipher) (h mech room : ℕ) where
  encrypt_pieces-joined :
      (ps : List (List ℕ)) (g : Library) (ctx : CipherCtx)
      → length (joined ps) < 2 ^ 32
      → Whole mech room ps
      → Encrypting g h mech ctx
      → encrypt_pieces cipher h room ps g ≡ cipher.process mech ctx (joined ps)
  unfolding encrypt_pieces joined
  encrypt_pieces-joined [] g ctx short w d = sym (chains.0 mech ctx)
  encrypt_pieces-joined (p ∷ ps) g ctx short (whole, fits, rest) d =
      let split = length-append p (joined ps) in
      let (out_is, next) =
        encrypt_update-Encrypting cipher h mech room g ctx p (omega (arith, split)) whole fits d in
      let all = chains.1 mech ctx p (joined ps) whole in
      elim next [
        | inl failed ↦
            ap
              (λ o. glue o (
                encrypt_pieces cipher h room ps
                  (encrypt_update cipher h (some p) true (some room) g).1))
              (out_is ∙ failed)
            ∙ sym
                (all ∙ ap (λ o. glue o (cipher.process mech (ctx_after ctx p) (joined ps))) failed)
        | inr d' ↦
            ap₂ glue out_is (
              encrypt_pieces-joined ps (encrypt_update cipher h (some p) true (some room) g).1
                (ctx_after ctx p) (omega (arith, split)) rest d')
            ∙ sym all
      ]

-- A call of C_Encrypt with enough room.
encrypt-Encrypting :
    (cipher : Cipher) (h mech room : ℕ) (g : Library) (ctx : CipherCtx) (data_in : List ℕ)
    → length data_in < 2 ^ 32
    → ragged mech data_in ≡ false
    → length data_in ≤ room
    → (d : Encrypting g h mech ctx) → d.session.encrypt_multipart ≡ false
    → taken (encrypt cipher h (some data_in) true (some room) g).0 ≡ cipher.process mech ctx data_in
unfolding encrypt encrypt_with encrypt_block knows_block
encrypt-Encrypting cipher h mech room g ctx data_in short whole fits d fresh =
    let cut = word32_cut_short data_in short in
    let s = d.session in
    let not_other : ((s.encrypt_mech == 1) ≡ false)
        × ((s.encrypt_mech == 9) ≡ false)
        × ((s.encrypt_mech == 0x1087) ≡ false) =
      (
        ground (arith, d.same_mech, d.knows),
        ground (arith, d.same_mech, d.knows),
        ground (arith, d.same_mech, d.knows),
      ) in
    elim (Option-cases (cipher.process mech ctx data_in)) [
      | inl failed ↦ ground (
        arith, d.locked, d.running, d.known, d.active, fresh, d.same_mech, d.knows, d.holds, cut,
        not_other.0, not_other.1, not_other.2,
      )
      | inr (out, made) ↦ ground (
        arith, d.locked, d.running, d.known, d.active, fresh, d.same_mech, d.knows, d.holds, cut,
        not_other.0, not_other.1, not_other.2,
      )
    ]

encrypt_setup_block :
    (cipher : Cipher) (s s' : Session) (obj : KeyObj) (mech : ℕ) (p : CipherParam)
    → knows_block mech ≡ true
    → encrypt_setup cipher s obj mech p ≡ ok s'
    → (ctx : CipherCtx) × (s' ≡ record s { enc_ctx = ctx })
unfolding encrypt_setup block_setup knows_block
encrypt_setup_block cipher s s' obj mech p knows e =
    elim (Option-cases (mech_required_key_type mech)) [
      | inl unknown ↦ absurd (ground arith)
      | inr (req, is) ↦
          (fresh_ctx obj (if mech_has_iv mech then some p.iv_bytes else none), ground arith)
    ]

encrypt_init-Encrypting :
    (cipher : Cipher) (h mech key : ℕ) (p : CipherParam) (g : Library)
    → length g.sessions ≡ max_sessions
    → knows_block mech ≡ true
    → (encrypt_init cipher h (some (mech, p)) key g).0 ≡ ok tt
    → (ctx : CipherCtx) × (d : Encrypting
        (encrypt_init cipher h (some (mech, p)) key g).1
        h
        mech
        ctx)
      × (d.session.encrypt_multipart ≡ false)
unfolding encrypt_init check_encrypt
encrypt_init-Encrypting cipher h mech key p g size knows e =
    elim (Option-cases (session_get g.sessions h)) [
      | inl unknown ↦ absurd (ground arith)
      | inr (s, known) ↦ elim (Option-cases (key_get g.keys key)) [
        | inl lost ↦ absurd (ground arith)
        | inr (obj, found) ↦ elim (Result-cases (encrypt_setup cipher s obj mech p)) [
          | inr (code, fails) ↦ absurd (ground arith)
          | inl (s0, fine) ↦
              let (ctx, same) = encrypt_setup_block cipher s s0 obj mech p knows fine in
              let s' = record s0 {
                encrypt_active = true;
                encrypt_oneshot = false;
                encrypt_multipart = false;
                encrypt_mech = mech;
                encrypt_key = key;
              } in
              let run : (encrypt_init cipher h (some (mech, p)) key g).1 ≡ put_session g h s' =
                ground arith in
              let used : s'.in_use ≡ true =
                ap (λ x. x.in_use) same ∙ session_get-in_use g.sessions h s known in
              subst
                (λ x.
                  (c : CipherCtx) × (d : Encrypting x h mech c) × (d.session.encrypt_multipart
                    ≡ false))
                (sym run)
                (
                  ctx,
                  record {
                    session = s';
                    locked = (put-globals g h s').0 ∙ ground arith;
                    running = (put-globals g h s').1 ∙ ground arith;
                    known = session_get_put g h s s' known size used;
                    size = put-size g h s' size;
                    active = refl;
                    not_oneshot = refl;
                    same_mech = refl;
                    knows = knows;
                    holds = ap (λ x. x.enc_ctx) same;
                  },
                  refl,
                )
        ]
      ]
    ]

-- Encryption in pieces is encryption in one call: if the block ciphers of wolfCrypt chain, then in a
-- session table of full size, after a successful C_EncryptInit with a DES, 3DES or AES mechanism in
-- ECB or CBC mode, C_EncryptUpdate with each of some pieces of whole blocks, with room for each,
-- writes in all exactly the bytes that C_Encrypt writes for the pieces joined, if these have less
-- than 2 ^ 32 bytes and fit its buffer; and nothing if that fails.
pub encrypt_pieces-encrypt :
    (cipher : Cipher) (g : Library) (h mech key room room' : ℕ) (p : CipherParam)
    (pieces : List (List ℕ))
    → Chains cipher
    → length g.sessions ≡ max_sessions
    → knows_block mech ≡ true
    → (encrypt_init cipher h (some (mech, p)) key g).0 ≡ ok tt
    → Whole mech room pieces
    → length (joined pieces) < 2 ^ 32
    → length (joined pieces) ≤ room'
    → encrypt_pieces cipher h room pieces (encrypt_init cipher h (some (mech, p)) key g).1
      ≡ taken
          (encrypt cipher h
            (some (joined pieces))
            true
            (some room')
            (encrypt_init cipher h (some (mech, p)) key g).1).0
encrypt_pieces-encrypt cipher g h mech key room room' p pieces chains size knows started whole short
      fits =
    let g' = (encrypt_init cipher h (some (mech, p)) key g).1 in
    let (ctx, d, fresh) = encrypt_init-Encrypting cipher h mech key p g size knows started in
    encrypt_pieces-joined cipher chains h mech room pieces g' ctx short whole d
    ∙ sym (
        encrypt-Encrypting cipher h mech room' g' ctx (joined pieces) short
          (ragged-joined mech room pieces whole) fits d fresh)
