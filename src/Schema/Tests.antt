-- ===== src/Schema/Tests.antt =====
-- Runs of the verification and of scopes on small inputs (schema/objects.go, schema/validate.go).
use overpass.Prelude.{◌≡◌, ◌≢◌, refl, true, some, [], ◌∷◌}
use overpass.Prelude.Int.{pos}
use overpass.Errs.{ok, err, named, typ_rejected}
use overpass.Schema.Scope.{check_mode, check_norad, scope, parse_scope, parse_scope-scope}
use overpass.Schema.Decode.{command_profile, mandate_profile, verify_object}
use overpass.Schema.Tokens.{typ_confined}
use overpass.Toys.{toy_library, command_codec, mandate_codec, command_token, command}

accepted :
    verify_object toy_library command_codec command_profile command_token ("k" ∷ [])
    ≡ ok (command 49)
unfolding verify_object
accepted = refl

has_typ : command_profile.typ ≢ ""
has_typ h = cc

other_typ : command_profile.typ ≢ mandate_profile.typ
other_typ h = cc

typ_confined_example :
    verify_object toy_library mandate_codec mandate_profile command_token ("k" ∷ [])
    ≡ err (named typ_rejected)
typ_confined_example =
    typ_confined toy_library command_codec mandate_codec command_profile mandate_profile
      command_token ("k" ∷ []) ("k" ∷ []) (command 49) has_typ other_typ accepted

uplink_scope : parse_scope "pass:uplink:27844" ≡ some ("uplink", pos 27844)
unfolding parse_scope
uplink_scope = refl

known_mode : check_mode "downlink" ≡ true
unfolding check_mode
known_mode = refl

known_norad : check_norad (pos 25544) ≡ true
unfolding check_norad
known_norad = refl

parse_scope-scope_example :
    parse_scope (scope "downlink" (pos 25544)) ≡ some ("downlink", pos 25544)
parse_scope-scope_example = parse_scope-scope "downlink" (pos 25544) known_mode known_norad
