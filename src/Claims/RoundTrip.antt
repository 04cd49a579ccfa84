-- ===== src/Claims/RoundTrip.antt =====
-- The object of a marker that is made passes the checks of reading, as the same claim (src/claims.js
-- createClaimMarker, createReleaseMarker and parseClaimMarker).
use fizzy_symphony.Base.{err, ok, ok-injective, ok_chain, ◌>>=◌}
use fizzy_symphony.Base.{ℕ, ◌≡◌, refl, subst, Option, none, some, String, arith}
use fizzy_symphony.Fizzy.Card.{Stamp, at}
use fizzy_symphony.Claims.Types.{
  Code, invalid_claim_marker, malformed_claim_marker, Checked, Status, Payload, Claim, Body,
}
use fizzy_symphony.Claims.Inputs.{ClaimInput, Setting}
use fizzy_symphony.Claims.Markers.{
  required, present, to_time_ms, known_status, is_claim_marker, validate_claim_payload,
  normalize_lease, parse_claim_marker, claim_payload, time_or, claim_expires_at,
  create_claim_marker,
}

-- The same result, with another code where it is an error.
abbrev relabel {ℓ} : {A : Type ℓ} → Code → Checked A → Checked A
relabel code (ok a) = ok a
relabel code (err e) = err code

relabel->>= {ℓ κ} :
    {A : Type ℓ} {B : Type κ} (code : Code) (m : Checked A) (f : A → Checked B)
    → relabel code (m >>= f) ≡ (relabel code m >>= λ a. relabel code (f a))
relabel->>= code (ok a) f = refl
relabel->>= code (err e) f = refl

relabel-required : (c d : Code) (o : Option String) → relabel d (required c o) ≡ required d o
unfolding required
relabel-required c d none = refl
relabel-required c d (some s) = ground arith

relabel-present : (c d : Code) (o : Option Stamp) → relabel d (present c o) ≡ present d o
unfolding present
relabel-present c d o = ground arith

relabel-to_time_ms : (c d : Code) (o : Option Stamp) → relabel d (to_time_ms c o) ≡ to_time_ms d o
unfolding to_time_ms
relabel-to_time_ms c d (some (at ms)) = refl
relabel-to_time_ms c d _ = refl

relabel-known_status :
    (c d : Code) (o : Option Status) → relabel d (known_status c o) ≡ known_status d o
unfolding known_status
relabel-known_status c d none = refl
relabel-known_status c d (some s) = refl

relabel-is_claim_marker :
    (c d : Code) (o : Option String) → relabel d (is_claim_marker c o) ≡ is_claim_marker d o
unfolding is_claim_marker
relabel-is_claim_marker c d none = refl
relabel-is_claim_marker c d (some s) = ground arith

-- The code only names the error.
relabel-validate :
    (c d : Code) (p : Payload) → relabel d (validate_claim_payload c p) ≡ validate_claim_payload d p
unfolding validate_claim_payload
relabel-validate c d p = simp (
  relabel->>=, relabel-required, relabel-present, relabel-to_time_ms, relabel-known_status,
  relabel-is_claim_marker,
)

validate_any_code :
    (c d : Code) (p : Payload) (claim : Claim)
    → validate_claim_payload c p ≡ ok claim
    → validate_claim_payload d p ≡ ok claim
validate_any_code c d p claim h = rw (← relabel-validate c d p) (rw h)

payload_normal :
    (c : ClaimInput) (w : Setting) (now : ℕ) (p : Payload)
    → claim_payload c w now ≡ ok p
    → normalize_lease p ≡ p
unfolding normalize_lease claim_payload
payload_normal c w now p h =
    let (started, _, h') = ok_chain _ (time_or c.started_at c.started_at_alias now) h in
    let (renewed, _, h'') = ok_chain _ (time_or c.renewed_at c.renewed_at_alias now) h' in
    let (expires, _, e) = ok_chain _ (claim_expires_at c now) h'' in
    subst (λ q. normalize_lease q ≡ q) (ok-injective e) refl

-- The object that `createClaimMarker` makes passes the checks of `parseClaimMarker`, as the same claim.
pub parse_claim_marker-create_claim_marker :
    (c : ClaimInput) (w : Setting) (now : ℕ) (body : Body) (claim : Claim)
    → create_claim_marker c w now ≡ ok (body, claim)
    → parse_claim_marker body ≡ ok claim
unfolding create_claim_marker parse_claim_marker
parse_claim_marker-create_claim_marker c w now body claim h =
    let (p, made, h') = ok_chain _ (claim_payload c w now) h in
    let (v, valid, e) = ok_chain _ (validate_claim_payload invalid_claim_marker p) h' in
    subst (λ (q : Body × Claim). parse_claim_marker q.0 ≡ ok q.1) (ok-injective e)
      (rw (payload_normal c w now p made)
        (validate_any_code invalid_claim_marker malformed_claim_marker p v valid))
