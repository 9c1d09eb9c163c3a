-- ===== src/Botdetection/IpLists.antt =====
-- botdetection/ip_lists.py: the pass list and the block list of IP networks.
pub mod Laws
use opencode_optimised_tooli.Prelude.{
  Bool, List, Option, String, [], concat, false, if◌then◌else◌, none, some, true, ◌&&◌, ◌==◌, ◌∷◌,
  list_eq, nat_eq, pair_eq, string_eq,
}
use opencode_optimised_tooli.Botdetection.Net.{IpAddress, Cfg}

abbrev pub searxng_org : List String
searxng_org = "167.235.158.251" ∷ "2a01:04f8:1c1c:8fc2::/64" ∷ []

module _ (ip : IpAddress) where
  open ip use {Addr, Net, parse_net, net_text, version, net_version, is_member}

  -- `real_ip.version == net.version and real_ip in net`
  unfoldable pub in_net : Addr → Net → Bool
  in_net real_ip net = (version real_ip == net_version net) && is_member real_ip net

  -- The loop over the list: an entry that is no network is logged and skipped.
  unfoldable pub find_net : Addr → List String → Option Net
  unfolding in_net
  find_net real_ip [] = none
  find_net real_ip (s ∷ rest) =
      let later = find_net real_ip rest in
      elim (parse_net s) [
        | none ↦ later
        | some net ↦ if in_net real_ip net then some net else later
      ]

  unfoldable pub ip_is_subnet_of_member_in_list : Addr → String → List String → Bool × String
  ip_is_subnet_of_member_in_list real_ip list_name list = elim (find_net real_ip list) [
    | none ↦ (false, concat ("IP is not a member of an item in the f" ∷ list_name ∷ " list" ∷ []))
    | some net ↦ (true, concat ("IP matches " ∷ net_text net ∷ " in " ∷ list_name ∷ "." ∷ []))
  ]

  -- The first check is over the constant list, whose entries are networks.
  unfoldable pub pass_ip : Addr → Cfg → Bool × String
  unfolding ip_is_subnet_of_member_in_list
  pass_ip real_ip cfg =
      let configured =
        ip_is_subnet_of_member_in_list real_ip "botdetection.ip_lists.pass_ip" cfg.pass_list in
      if cfg.pass_searxng_org
      then elim (find_net real_ip searxng_org) [
        | none ↦ configured
        | some net ↦ (true, concat ("IP matches " ∷ net_text net ∷ " in SEARXNG_ORG list." ∷ []))
      ]
      else configured

  unfoldable pub block_ip : Addr → Cfg → Bool × String
  unfolding ip_is_subnet_of_member_in_list
  block_ip real_ip cfg =
      let (block, msg) =
        ip_is_subnet_of_member_in_list real_ip "botdetection.ip_lists.block_ip" cfg.block_list in
      if block
      then (
        block,
        concat
            (msg ∷ " To remove IP from list, please contact the maintainer of the service." ∷ []),
      )
      else (block, msg)
