-- ===== src/Policy.antt =====
-- Package policy: what its rules share. Each rule is a module.
pub mod Rules
pub mod Promotion
pub mod Release
pub mod Verified
pub mod M1
pub mod M2
pub mod M3
pub mod M4
pub mod M6
use heliopause.Base.{Bool, Result, [], list_eq, nat_eq, not, ◌&&◌, ◌||◌, ◌∷◌}
use heliopause.Domain.Check.{CheckExecution, is_completed, is_supported}
use heliopause.Domain.Run.{Decision, PolicyDecision, new_policy_decision}
use heliopause.Text.{Text}

-- `check.Required() && (check.Capability() != Supported || check.Status() != Completed)`
unfoldable pub is_incomplete_required : CheckExecution → Bool
is_incomplete_required c =
    c.required && (not (is_supported c.capability) || not (is_completed c.status))

-- A decision with one reason, as every rule makes it.
unfoldable pub decide_with : Text → Decision → Text → Result PolicyDecision
decide_with policy_id decision reason = new_policy_decision decision policy_id 1 (reason ∷ [])
