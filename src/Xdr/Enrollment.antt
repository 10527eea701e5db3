-- ===== src/Xdr/Enrollment.antt =====
-- apps/xdr_rico/app/main.py: enrollment tokens. `sha256_hex` stands for `hashlib.sha256`, hex digits
-- of the digest; `uuid4().hex` and the clock are arguments. Log lines are left out.
pub mod Binding
use Prim.Native.Char.{code}
use penguard.Prelude.{
  ℕ, ◌+◌, String, concat, List, [], ◌∷◌, Bool, true, false, not, ◌&&◌, ◌||◌, Option, none, some,
  ◌==◌, leb, eqb, if◌then◌else◌,
}
use penguard.Prelude.Texts.{lower_codes, same_codes}
use penguard.Http.{
  HttpError, Reply, ok, raised, http_error, Handler, pure, gets, lift, require, raise, raise_if,
  put_state, ◌>>=◌, ◌>>◌,
}
use penguard.Xdr.Models.{EnrollmentRecord}
use penguard.Xdr.Store.{
  XdrStore, add_enrollment, get_enrollment_by_token_hash, claim_enrollment_endpoint,
}

-- text.partition(" ") without the separator
unfoldable pub partition_space : String → String × String
partition_space String.[] = ("", "")
partition_space (String.◌∷◌ c s) =
    let (scheme, token) = partition_space s in
    if eqb (code c) 32 then ("", s) else (String.◌∷◌ c scheme, token)

abbrev token_required : HttpError
token_required = http_error 401 "Valid endpoint enrollment token required."

unfoldable pub bearer_token : Option String → Reply String
unfolding partition_space lower_codes same_codes
bearer_token none = raised (http_error 401 "Endpoint enrollment token required.")
bearer_token (some authorization) =
    let (scheme, token) = partition_space authorization in
    if not (same_codes (lower_codes scheme) (lower_codes "bearer")) || token == ""
    then raised (http_error 401 "Endpoint enrollment token must use Bearer authentication.")
    else ok token

-- The claim of an enrollment that has no endpoint yet.
unfoldable pub claim_for : EnrollmentRecord → String → Handler XdrStore EnrollmentRecord
claim_for enrollment endpoint_id store =
    let (claimed, after) = claim_enrollment_endpoint enrollment.id endpoint_id store in
    require token_required claimed after

-- `require_enrollment_token_for_endpoint` after the lookup, by the endpoint claimed so far.
unfoldable pub bind_claimed :
    Option String → EnrollmentRecord → String → Handler XdrStore EnrollmentRecord
bind_claimed none enrollment endpoint_id = claim_for enrollment endpoint_id
bind_claimed (some claimed) enrollment endpoint_id =
    if not (claimed == endpoint_id)
    then raise (http_error 403 "Enrollment token is bound to a different endpoint.")
    else pure enrollment

-- `pair_enrollment` after the lookup: the endpoint that the token is bound to, the enrollment's own
-- id if there is none.
unfoldable pub pair_claimed : Option String → EnrollmentRecord → Handler XdrStore String
pair_claimed none enrollment = do claimed ← claim_for enrollment enrollment.id; pure enrollment.id
pair_claimed (some claimed) enrollment = pure (if claimed == "" then enrollment.id else claimed)

abbrev pub new_enrollment : Option String → Option String → ℕ → String → String → EnrollmentRecord
new_enrollment display_name hostname_hint now id token_hash = record {
  id = id;
  display_name = display_name;
  hostname_hint = hostname_hint;
  created_at = now;
  token_hash = token_hash;
  claimed_endpoint_id = none;
}

module _ (sha256_hex : String → String) where
  unfoldable pub require_enrollment_token_for_endpoint :
      Option String → String → Handler XdrStore EnrollmentRecord
  require_enrollment_token_for_endpoint authorization endpoint_id = do
    token ← lift (bearer_token authorization)
    found ← gets (get_enrollment_by_token_hash (sha256_hex token))
    enrollment ← require token_required found
    bind_claimed enrollment.claimed_endpoint_id enrollment endpoint_id

  -- `hex` makes the id and `token_hex` the token; the token itself is not stored.
  unfoldable pub create_enrollment :
      Option String → Option String → ℕ → String → String → Handler XdrStore String
  create_enrollment display_name hostname_hint now hex token_hex = do
    let token : String = concat "xdr_enroll_" token_hex
    let enrollment : EnrollmentRecord =
        new_enrollment display_name hostname_hint now (concat "enr_" hex) (sha256_hex token)
    added ← gets (add_enrollment enrollment enrollment.token_hash enrollment.created_at)
    after ← require (http_error 500 "Internal Server Error") added
    put_state after
    pure token

  unfoldable pub pair_enrollment : String → Handler XdrStore String
  pair_enrollment token = do
    found ← gets (get_enrollment_by_token_hash (sha256_hex token))
    enrollment ← require token_required found
    pair_claimed enrollment.claimed_endpoint_id enrollment
