-- ===== src/Auth.antt =====
-- `makeAuthSig` (frontend/src/auth.ts), which signs requests to the census service.
use mootvote.Base.{ℕ, ◌/◌, List, [], ◌∷◌}
use mootvote.Blob.{Text}
use mootvote.Bytes.{to_hex32}
use mootvote.Decimal.{decimal}
use mootvote.Sdk.{platform_name}
use mootvote.Vote.{VoteLibrary}

-- `AUTH_DOMAIN`
abbrev pub auth_domain : ℕ
auth_domain = 1635087464

-- The headers of a request.
pub record AuthSig : Type 0 where
  pub pub_x : Text
  pub pub_y : Text
  pub ts : Text
  pub sig_r8_x : Text
  pub sig_r8_y : Text
  pub sig_s : Text

-- `now_ms` is `Date.now()`.
pub make_auth_sig : (List ℕ → ℕ) → VoteLibrary → List ℕ → ℕ × ℕ → ℕ → AuthSig
make_auth_sig poseidon vlib prv pub_xy now_ms =
    let now = now_ms / 1000 in
    let m = poseidon (platform_name ∷ auth_domain ∷ now ∷ []) in
    let sig = vlib.sign_poseidon prv m in
    record {
      pub_x = to_hex32 pub_xy.0;
      pub_y = to_hex32 pub_xy.1;
      ts = decimal now;
      sig_r8_x = decimal sig.r8.0;
      sig_r8_y = decimal sig.r8.1;
      sig_s = decimal sig.s;
    }
