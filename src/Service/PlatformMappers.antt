-- ===== src/Service/PlatformMappers.antt =====
-- internal/service/platform_mappers.go: between the platform records and their messages.
use linea_server.Prelude.{◌≡◌, ◌==◌, true, Option, none, some, arith, if◌then◌else◌}
use linea_server.Platform.Types.{
  ℤ, is_positive, Visibility, visibility_private, visibility_unlisted, visibility_public,
  is_valid_visibility, Role, role_none, role_viewer, role_contributor, role_curator, role_owner,
  is_valid_role, Genealogy, Membership, Ban,
}
use linea_server.Service.Proto.{PbVisibility, PbRole, PbGenealogy, PbMembership, PbBan}

unfoldable pub visibility_to_proto : Visibility → PbVisibility
visibility_to_proto v =
    if v == visibility_private
    then PbVisibility.private
    else if v == visibility_unlisted
    then PbVisibility.unlisted
    else if v == visibility_public
    then PbVisibility.public
    else PbVisibility.unspecified

unfoldable pub visibility_from_proto : PbVisibility → Visibility
visibility_from_proto PbVisibility.private = visibility_private
visibility_from_proto PbVisibility.unlisted = visibility_unlisted
visibility_from_proto PbVisibility.public = visibility_public
visibility_from_proto _ = 0

unfoldable pub role_to_proto : Role → PbRole
role_to_proto r =
    if r == role_none
    then PbRole.none
    else if r == role_viewer
    then PbRole.viewer
    else if r == role_contributor
    then PbRole.contributor
    else if r == role_curator
    then PbRole.curator
    else if r == role_owner
    then PbRole.owner
    else PbRole.unspecified

unfoldable pub role_from_proto : PbRole → Role
role_from_proto PbRole.viewer = role_viewer
role_from_proto PbRole.contributor = role_contributor
role_from_proto PbRole.curator = role_curator
role_from_proto PbRole.owner = role_owner
role_from_proto _ = 0

-- A time stamp is left out unless it is after the epoch.
time_to_proto : ℤ → Option ℤ
time_to_proto t = if is_positive t then some t else none

unfoldable pub genealogy_to_proto : Genealogy → Role → PbGenealogy
unfolding visibility_to_proto role_to_proto time_to_proto
genealogy_to_proto g my_role = record {
  id = g.id;
  name = g.name;
  visibility = visibility_to_proto g.visibility;
  created_by = g.created_by;
  created_at = time_to_proto g.created_at;
  my_role = role_to_proto my_role;
}

unfoldable pub membership_to_proto : Membership → PbMembership
unfolding role_to_proto time_to_proto
membership_to_proto m = record {
  subject = m.subject;
  genealogy_id = m.genealogy_id;
  role = role_to_proto m.role;
  granted_by = m.granted_by;
  granted_at = time_to_proto m.granted_at;
}

unfoldable pub ban_to_proto : Ban → PbBan
unfolding time_to_proto
ban_to_proto b = record {
  subject = b.subject;
  genealogy_id = b.genealogy_id;
  reason = b.reason;
  by = b.by;
  at = time_to_proto b.at;
}

-- A visibility that the server does not know is the unspecified one, a role that it does not know,
-- or that is not specified, is none.
abbrev pub known_visibility : PbVisibility → PbVisibility
known_visibility (PbVisibility.unknown n) = PbVisibility.unspecified
known_visibility v = v

abbrev pub known_role : PbRole → PbRole
known_role (PbRole.unknown n) = PbRole.none
known_role PbRole.unspecified = PbRole.none
known_role r = r

-- Every valid visibility and role survives the message; every visibility and role of a message
-- survives the platform's numbers, but that an unknown visibility becomes the unspecified one, and
-- an unknown or unspecified role none.
pub enums_round_trip :
    (v : Visibility) (r : Role) (pv : PbVisibility) (pr : PbRole)
    → is_valid_visibility v ≡ true
    → is_valid_role r ≡ true
    → (visibility_from_proto (visibility_to_proto v) ≡ v)
      × (role_from_proto (role_to_proto r) ≡ r)
      × (visibility_to_proto (visibility_from_proto pv) ≡ known_visibility pv)
      × (role_to_proto (role_from_proto pr) ≡ known_role pr)
unfolding visibility_from_proto visibility_to_proto role_from_proto role_to_proto
enums_round_trip v r pv pr hv hr = (ground arith, ground arith, ground arith, ground arith)
