-- ===== src/PeerRoute/Names.antt =====
-- The names of the policies.
use secure_network.Prelude.{◌≡◌, refl, ap, ◌∙◌, true, ◌++◌, Bytes, ◌==◌}
use secure_network.Strings.{to_lower, trim_space}
use secure_network.Strings.Trim.{IsBlank, to_lower-trim_space}
use secure_network.PeerRoute.{
  AccessPolicy, deny, read_only, see, write, admin, access_policy_name, parse_access_policy,
  policy_of,
}

policy_of-access_policy_name : (p : AccessPolicy) → policy_of (access_policy_name p) ≡ (p, true)
unfolding policy_of access_policy_name ◌==◌
policy_of-access_policy_name deny = refl
policy_of-access_policy_name read_only = refl
policy_of-access_policy_name see = refl
policy_of-access_policy_name write = refl
policy_of-access_policy_name admin = refl

-- ParseAccessPolicy reads back the name that AccessPolicyName gives a policy, in any mixture of
-- upper and lower case and with any spaces before and behind it.
pub parse_access_policy-access_policy_name :
    (p : AccessPolicy) (before s after : Bytes)
    → IsBlank before
    → IsBlank after
    → to_lower s ≡ access_policy_name p
    → parse_access_policy (before ++ (s ++ after)) ≡ (p, true)
unfolding parse_access_policy access_policy_name trim_space
parse_access_policy-access_policy_name p before s after hb ha e =
    ap policy_of (lowered p e) ∙ policy_of-access_policy_name p
  where
    lowered :
        (p : AccessPolicy)
        → to_lower s ≡ access_policy_name p
        → to_lower (trim_space (before ++ (s ++ after))) ≡ access_policy_name p
    lowered deny e = to_lower-trim_space before s after _ _ hb ha e refl refl
    lowered read_only e = to_lower-trim_space before s after _ _ hb ha e refl refl
    lowered see e = to_lower-trim_space before s after _ _ hb ha e refl refl
    lowered write e = to_lower-trim_space before s after _ _ hb ha e refl refl
    lowered admin e = to_lower-trim_space before s after _ _ hb ha e refl refl
