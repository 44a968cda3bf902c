-- ===== src/FailTracker/Success.antt =====
-- src/server/tunnel/successful_ip_history.go: addresses that logged in today cannot be banned for
-- protocol errors. `parse_ip` is `net.ParseIP` followed by `String`.
use lsyl_tunnel.Base.{
  String, Bool, true, false, Option, none, some, [], ite, leb, if◌then◌else◌, String_discrete,
  length, find, put, trim_space,
}
use lsyl_tunnel.FailTracker.{FailTracker, Env, is_some}

-- `rotateSuccessfulIPsLocked`
unfoldable pub rotate_successful_ips : String → FailTracker → FailTracker
rotate_successful_ips date f =
    ite (String_discrete f.successful_date date) f
      (record f { successful_date = date; successful_ips = [] })

-- `successfulTodayLocked`
unfoldable pub successful_today : String → String → FailTracker → FailTracker × Bool
successful_today key date f =
    let g = rotate_successful_ips date f in (g, is_some (find String_discrete key g.successful_ips))

unfoldable pub forget_protocol_failures : String → FailTracker → FailTracker
forget_protocol_failures key f = elim (find String_discrete key f.items) [
  | none ↦ f
  | some st ↦ record f {
    items = put String_discrete key (record st { protocol_failures = [] }) f.items;
  }
]

module _ (parse_ip : String → Option String) where
  -- `canonicalSuccessfulIP`
  unfoldable pub canonical_successful_ip : String → Option String
  canonical_successful_ip value = parse_ip (trim_space value)

  unfoldable pub mark_key : String → FailTracker → FailTracker × Bool
  unfolding forget_protocol_failures
  mark_key key f =
      if is_some (find String_discrete key f.successful_ips)
      then (forget_protocol_failures key f, true)
      else if leb f.max_items (length f.successful_ips)
      then (f, false)
      else (
        forget_protocol_failures key
            (record f { successful_ips = put String_discrete key tt f.successful_ips }),
        true,
      )

  unfoldable pub mark_successful : Env → String → FailTracker → FailTracker × Bool
  unfolding mark_key
  mark_successful env addr f = elim (canonical_successful_ip addr) [
    | none ↦ (f, false)
    | some key ↦ mark_key key (rotate_successful_ips env.date f)
  ]
