-- ===== src/Tests/Runs.antt =====
-- Functions without a theorem of their own, run: ax/tree.ts, ax/input.ts, ax/tap.ts, ax/recovery.ts,
-- capture.ts and lifecycle.ts of packages/simgadget/src; env.ts and transport.ts of
-- packages/simgadget-mcp/src.
use simgadget.Prelude.{◌≡◌, refl, true, false, [], ◌∷◌, none, some}
use simgadget.Prelude.Int.{pos, ◌+ℤ◌, max_ℤ}
use simgadget.Prelude.Text.{Text, text, text_eq, trim, member, includes, starts_with}
use simgadget.Ax.Element.{string_of, str, num, undefined}
use simgadget.Ax.Canonical.{reconcile_type}
use simgadget.Ax.Geometry.{frame_contains}
use simgadget.Ax.Input.{is_secure_editing}
use simgadget.Ax.Match.{is_toggle}
use simgadget.Ax.Prune.{is_interesting}
use simgadget.Ax.Recovery.{is_wedge_error, is_no_element_error}
use simgadget.Ax.Tap.{toggle_state, hold, absent}
use simgadget.Capture.Args.{point_dimensions, sips_query_args, sips_args}
use simgadget.Lifecycle.Devices.{
  DeviceTypeInfo, pick_device_type, RuntimeInfo, pick_latest_runtime, is_invalid_device_error,
}
use simgadget.Mcp.Env.{allowed_hosts, filtered_tools, assert_idb_path_unset, set_value}
use simgadget.Mcp.Transport.{
  route, not_found, method_not_allowed, host_rejected, served, allowed_host_headers, CliArgs,
  parse_args, parse_from, flag_of, resolve_config,
}
use simgadget.Prelude.Dict.{get, put}
use simgadget.Prelude.Forest.{nil}
use simgadget.Ax.Orientation.{portrait}
use simgadget.Registry.{mark_answered, has_answered}
use simgadget.Simulator.Orienting.{to_portrait}
use simgadget.Tests.Samples.{window_frame, save, group}

heading_is_text : reconcile_type (str (text "Heading")) undefined ≡ some (text "StaticText")
unfolding reconcile_type text_eq
heading_is_text = refl

switch_by_subrole :
    reconcile_type (str (text "CheckBox")) (str (text "AXSwitch")) ≡ some (text "Switch")
unfolding reconcile_type text_eq
switch_by_subrole = refl

corner_contained : frame_contains window_frame (pos 0) (pos 0) ≡ true
unfolding frame_contains ◌+ℤ◌
corner_contained = refl

save_not_secure : is_secure_editing save ≡ false
unfolding is_secure_editing member
save_not_secure = refl

save_no_toggle : is_toggle save ≡ false
unfolding is_toggle text_eq
save_no_toggle = refl

save_interesting : is_interesting save ≡ true
unfolding is_interesting trim member text_eq
save_interesting = refl

group_dull : is_interesting group ≡ false
unfolding is_interesting string_of trim member text_eq
group_dull = refl

wedge_recognised : is_wedge_error (text "No Translation Object returned") ≡ true
unfolding is_wedge_error includes starts_with
wedge_recognised = refl

miss_recognised : is_no_element_error (text "Found no element whose AXLabel contains") ≡ true
unfolding is_no_element_error includes starts_with
miss_recognised = refl

toggle_on : toggle_state (num (pos 1)) ≡ text "on"
unfolding toggle_state
toggle_on = refl

portrait_points :
    point_dimensions (record { width = 844; height = 390 }) ≡ record { width = 390; height = 844 }
unfolding point_dimensions
portrait_points = refl

query_args :
    sips_query_args (text "a.png")
    ≡ text "-g" ∷ text "pixelWidth" ∷ text "-g" ∷ text "pixelHeight" ∷ text "a.png" ∷ []
unfolding sips_query_args
query_args = refl

invalid_device : is_invalid_device_error (text "Invalid device: X") ≡ true
unfolding is_invalid_device_error includes starts_with
invalid_device = refl

abbrev ios : Text → RuntimeInfo
ios id = record { identifier = id; name = text "iOS 17.4"; is_available = true }

latest_runtime : pick_latest_runtime (ios (text "a") ∷ ios (text "b") ∷ []) ≡ some (text "b")
unfolding pick_latest_runtime starts_with
latest_runtime = refl

hosts_trimmed : allowed_hosts (some (text "a:1, ,b:2")) ≡ text "a:1" ∷ text "b:2" ∷ []
unfolding allowed_hosts trim
hosts_trimmed = refl

tools_kept_empty : filtered_tools (some (text "tap,")) ≡ text "tap" ∷ [] ∷ []
unfolding filtered_tools trim
tools_kept_empty = refl

other_path : route [] (text "/") (text "POST") none ≡ not_found
unfolding route text_eq member
other_path = refl

got_by_get : route [] (text "/mcp?x") (text "GET") none ≡ method_not_allowed
unfolding route text_eq member
got_by_get = refl

strange_host :
    route (text "h:1" ∷ []) (text "/mcp") (text "POST") (some (text "evil:1")) ≡ host_rejected
unfolding route text_eq member
strange_host = refl

known_host : route (text "h:1" ∷ []) (text "/mcp") (text "POST") (some (text "h:1")) ≡ served
unfolding route text_eq member
known_host = refl

short_hold : hold absent ≡ pos 100
unfolding hold max_ℤ
short_hold = refl

both_resized :
    sips_args
      (λ n. text "N")
      (record {
        input = text "a.png";
        output = text "b.png";
        resize = some (record { width = 390; height = 844 });
        rotate = none;
        format = some (text "jpeg");
        quality = none;
      })
    ≡ text "-z"
      ∷ text "N"
      ∷ text "N"
      ∷ text "-s"
      ∷ text "format"
      ∷ text "jpeg"
      ∷ text "a.png"
      ∷ text "--out"
      ∷ text "b.png"
      ∷ []
unfolding sips_args
both_resized = refl

abbrev phone_type : DeviceTypeInfo
phone_type = record { identifier = text "x.iPhone-15"; name = text "iPhone 15" }

picked_phone : pick_device_type (λ t. t) (phone_type ∷ []) (text "Phone") ≡ some phone_type
unfolding pick_device_type includes starts_with
picked_phone = refl

old_name_complains :
    assert_idb_path_unset ((text "IOS_SIMULATOR_MCP_IDB_PATH", text "/x") ∷ [])
    ≡ some (text "IOS_SIMULATOR_MCP_IDB_PATH")
unfolding assert_idb_path_unset set_value text_eq get
old_name_complains = refl

abbrev given : CliArgs
unfolding parse_args parse_from flag_of text_eq
given = parse_args (text "--port" ∷ text "81" ∷ text "--verbose" ∷ [])

port_in_next : given.port ≡ some (text "81")
unfolding given parse_args parse_from flag_of text_eq
port_in_next = refl

flag_over_variable :
    resolve_config
      (λ t. t)
      (λ t. t)
      (record { transport = text "http"; host = text "h"; port = text "80"; verbose = false })
      given
    ≡ record { transport = text "http"; host = text "h"; port = text "81"; verbose = true }
unfolding given resolve_config parse_args parse_from flag_of text_eq
flag_over_variable = refl

container_header :
    member (text "host.docker.internal:80") (allowed_host_headers (text "0.0.0.0") (text "80") [])
    ≡ true
unfolding allowed_host_headers member text_eq
container_header = refl

answered_once_marked : has_answered (text "A") (mark_answered (text "A") []) ≡ true
unfolding has_answered mark_answered get text_eq put
answered_once_marked = refl

unmeasured_stays :
    (to_portrait nil (record { screen_dims = none; orientation_hint = portrait }) (pos 3, pos 4)).1
    ≡ (pos 3, pos 4)
unfolding to_portrait
unmeasured_stays = refl
