-- ===== src/LockOrder/Verify.antt =====
-- crates/laplace-probe-sdk/src/session.rs: the verdict on a list of events, and the assertions on it.
use laplace.Prelude.{ℕ, String, str_append, Bool, true, Option, none, some, List, length}
use laplace.Event.{ProbeEvent}
use laplace.LockOrder.Edges.{cycle, go}
use laplace.LockOrder.Tracker.{new_tracker, scan}

-- `format!("{prior}->{resource}->{prior}")`.
unfoldable pub render : String → String → String
render prior resource =
    str_append prior (str_append "->" (str_append resource (str_append "->" prior)))

pub record ProbeSessionConfig : Type 0 where
  pub max_depth : ℕ
  pub write_ard : Bool
  pub output_dir : String

-- `ProbeSessionConfig::default`: the license's depth, else that of a laplace.toml, else 500. The
-- two files' readers are inputs.
unfoldable pub default_config : (license_depth toml_depth : Option ℕ) → ProbeSessionConfig
default_config license_depth toml_depth = record {
  max_depth = depth license_depth toml_depth;
  write_ard = true;
  output_dir = ".";
}
  where
    depth : Option ℕ → Option ℕ → ℕ
    depth (some d) _ = d
    depth none (some d) = d
    depth none none = 500

pub data ReferenceVerdict : Type 0 where
  clean : ReferenceVerdict
  bug_found : (description : String) → ReferenceVerdict

pub record VerifyResult : Type 0 where
  pub verdict : ReferenceVerdict
  pub events_collected : ℕ

-- A call that returns, or panics with a message.
pub data Assertion : Type 0 where
  returns : Assertion
  panics : (message : String) → Assertion

unfoldable pub assert_bug : VerifyResult → Assertion
assert_bug r = elim r.verdict [
  | bug_found _ ↦ returns
  | clean ↦ panics "Laplace reference verifier: expected bug but got CLEAN"
]

unfoldable pub assert_clean : VerifyResult → Assertion
assert_clean r = elim r.verdict [
  | clean ↦ returns
  | bug_found description ↦
      panics (str_append "Laplace reference verifier: bug found: " description)
]

module _ {J : Type 0} where
  unfoldable pub find_lock_order_cycle : List (ProbeEvent J) → Option String
  unfolding scan render
  find_lock_order_cycle events = elim (scan new_tracker events) [
    | cycle p r ↦ some (render p r)
    | go _ ↦ none
  ]

  unfoldable pub run_verification_from :
      List (ProbeEvent J) → String → ProbeSessionConfig → VerifyResult
  unfolding find_lock_order_cycle
  run_verification_from events target_name _ = record {
    verdict = elim (find_lock_order_cycle events) [
      | none ↦ clean
      | some c ↦ bug_found (str_append target_name (str_append ": lock-order cycle " c))
    ];
    events_collected = length events;
  }
