-- ===== src/Claims/Startup.antt =====
-- What the inspection at startup promises (src/claims.js inspectClaimMarkers and readClaims).
use fizzy_symphony.Base.{ℕ, Bool, true, false, Option, some, String, same_text, leb}
use fizzy_symphony.Claims.Types.{Status, claimed, renewed}
use fizzy_symphony.Claims.EventLog.{ClaimState}

-- What a claim is to an instance that starts.
pub data Class : Type 0 where
  over own_expired own_live others_live others_expired : Class

abbrev pub same_class : Class → Class → Bool
same_class over over = true
same_class own_expired own_expired = true
same_class own_live own_live = true
same_class others_live others_live = true
same_class others_expired others_expired = true
same_class _ _ = false

-- By whose the claim is, and whether its lease is over.
abbrev pub class_by : (own lapsed : Bool) → Class
class_by true true = own_expired
class_by true false = own_live
class_by false true = others_expired
class_by false false = others_live

-- A claim that is neither claimed nor renewed is over, whatever else it is.
abbrev pub class_with : Status → (own lapsed : Bool) → Class
class_with claimed own lapsed = class_by own lapsed
class_with renewed own lapsed = class_by own lapsed
class_with _ own lapsed = over

abbrev pub class_of : Option String → ℕ → ClaimState → Class
class_of instance_id now s =
    class_with s.claim.status (same_text (some s.claim.instance_id) instance_id)
      (leb s.claim.expires_at now)

abbrev pub is_class : Option String → ℕ → Class → ClaimState → Bool
is_class instance_id now c s = same_class c (class_of instance_id now s)
