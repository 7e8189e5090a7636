-- ===== src/Lib.antt =====
-- wolfP11: a PKCS#11 (Cryptoki) library in C over USB smart cards.
--
-- The parts of the program and the files that model them:
--   src/wp11_ccid.c, wolfp11/wp11_ccid.h: commands to a card in CCID frames. Ccid, with Ccid/Codec for
--     put_u32le and get_u32le, Ccid/Frames for the frames, Ccid/Sync for sequences of calls.
--     `exchange` is wp11_ccid_apdu past its NULL checks, `apdu` with them; `Ctx` is wp11_ccid_ctx.
--   src/wp11_token_db.c: the table of tokens. TokenDb.
--   src/wp11_proto_piv.c: PIV over CCID. Piv, with Piv/Tlv for ber_len_decode, tlv_expect and
--     ber_len_encode; Piv/Apdu for status words; Piv/Select, Piv/Pin, Piv/Auth (wp11_piv_sign and
--     wp11_piv_ecdh), Piv/Cert (wp11_piv_get_cert and wp11_piv_attest) and Piv/Keygen.
--   src/wp11_proto_openpgp.c: OpenPGP over CCID. OpenPgp.
--     Card holds what both protocols do around each exchange: the folded error code, the refusal of a
--     reply without status word, and the retry after 6C xx.
--   src/wp11_pkcs11.c: the Cryptoki calls. Cryptoki/State for the global tables and the lookups by
--     handle; Cryptoki/Sessions for C_OpenSession, C_CloseSession, C_CloseAllSessions,
--     C_GetSessionInfo, C_Login and C_Logout; Cryptoki/Find for C_FindObjectsInit, C_FindObjects
--     and C_FindObjectsFinal; Cryptoki/Objects for C_DestroyObject; Cryptoki/Create for
--     C_CreateObject and C_CopyObject; Cryptoki/Attributes for C_GetAttributeValue,
--     C_SetAttributeValue and C_GetObjectSize; Cryptoki/SignInit for C_SignInit and Cryptoki/Sign
--     for C_Sign; Cryptoki/Verify for C_VerifyInit and C_Verify; Cryptoki/Digest for C_DigestInit,
--     C_Digest, C_DigestUpdate, C_DigestKey and C_DigestFinal; Cryptoki/EncryptInit for
--     C_EncryptInit and Cryptoki/Encrypt for C_Encrypt, C_EncryptUpdate and C_EncryptFinal;
--     Cryptoki/Hotplug for hotplug_push_event and C_WaitForSlotEvent; Cryptoki/Slots for slot_add,
--     slot_remove, hotplug_cb and C_GetSlotList; Cryptoki/Machine for the states that sequences of
--     these calls and changes reach.
--   src/wp11_keystore.c, wolfp11/wp11_keystore.h: keystore files, with the extension .p11k. Keystore, with
--     Keystore/Cbor for cbor_read_head to cbor_write_bytes, Keystore/Payload for decode_cbor_payload and
--     encode_cbor_payload, Keystore/Io for read_all, write_all and the system calls of a save, and
--     Keystore/File for wp11_keystore_load and wp11_keystore_create.
-- The hotplug callback uses the token table, the slot table and the event ring; the slot table's
-- changes end sessions; the PIV and OpenPGP calls use the CCID exchange and nothing else. A load or
-- a creation of a keystore file uses the payload's reader or writer, and these the CBOR helpers.
--
-- Conventions. A byte is a number below 256 and a buffer a list of them. A call returns `Result`,
-- with `ok` for code 0 and what the call writes to its output pointers, and `err` for an error
-- code; a call that changes a context or the library's tables returns the new state beside it. A
-- NULL pointer is `none`, or a Boolean argument that is false. size_t does not overflow: every
-- length in the modelled code is bounded by a buffer's or by the checks before it; the CCID length
-- keeps its check against SIZE_MAX, taken for a 32-bit size_t. The sequence number wraps at 256
-- and the counter of dropped events at 2 ^ 32. libusb and the mock callback are the parameter
-- `Transport`. In the keystore code a size_t has 64 bits; wolfCrypt is the parameter `Crypto`,
-- whether malloc and mlock succeed the parameters `Memory`, `LoadMemory` and `Creation`, and what
-- the system answers a list of answers in order, at whose end the process is killed. In the
-- Cryptoki calls a CK_ULONG has 64 bits and a CK_BBOOL counts as whether it is 0; a cast to word32
-- is the value modulo 2 ^ 32.
--
-- Configuration. CCID is modelled with the USB backend on. The Cryptoki calls are modelled with
-- the optional backends off, as wolfp11/wp11_settings.h leaves them: a login does not read the
-- PIN, and a slot has neither CCID context nor keystore. Signing and verifying are modelled with
-- WC_RSA_PSS defined, over the parameters `Signer` and `Verifier` for the HMAC of wolfCrypt and
-- the key's backend; malloc is the parameter `memory` of C_CreateObject and C_CopyObject, and the
-- export of an RSA public key the parameter `Export`; a digest context stands for the data it was
-- given, of which the parameter `finish` makes the digest, and a cipher context for its key, its
-- IV and the data it was given, of which the parameter `Cipher` makes the ciphertext. The hotplug
-- callback is that of the USB backend.
--
-- Loops. The scan for tag 84 of wp11_piv_select runs on as much fuel as the reply has bytes, and one
-- more; a round moves on by at least two. GET RESPONSE chaining runs on fuel 4098; each round but the
-- last adds at least one byte to a buffer of 4096. C_FindObjects runs over the entries that are left.
-- cbor_skip runs on the levels that CBOR_SKIP_MAX_DEPTH leaves, and past them gives the code's error;
-- its loops and those of the payload run on the counts that were read. read_all and write_all run on
-- the system's answers.
--
-- Not modelled: opening and closing of USB devices, the cryptographic operations but digests,
-- encryption, and signing and verifying in one part, the freeing of keystores and their
-- provisioning helpers (calls of wolfCrypt), the optional backends, threads and locks (each call
-- is one step, as the library's mutex makes it), the blocking wait for a slot event, slot labels,
-- the zeroizing of buffers, and the command line tool.
pub mod Prelude
pub mod Ccid
pub mod TokenDb
pub mod Card
pub mod Piv
pub mod OpenPgp
pub mod Cryptoki
pub mod Keystore
