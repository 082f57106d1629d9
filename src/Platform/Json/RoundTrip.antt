-- ===== src/Platform/Json/RoundTrip.antt =====
-- Reading back the JSON form of a record gives the record.

use linea_server.Prelude.{◌<◌, ◌≡◌, arith, eq_iff}
use linea_server.Result.{ok}
use linea_server.Platform.Types.{User, Genealogy, Membership, Ban}
use linea_server.Platform.Json.{
  marshal_user, unmarshal_user, marshal_genealogy, unmarshal_genealogy, marshal_membership,
  unmarshal_membership, marshal_ban, unmarshal_ban,
}

unmarshal-marshal_user : (u : User) → unmarshal_user (marshal_user u) ≡ ok u
unfolding unmarshal_user marshal_user
unmarshal-marshal_user u = ground (arith, eq_iff u.email "")

pub unmarshal-marshal_genealogy :
    (g : Genealogy) → g.visibility < 256 → unmarshal_genealogy (marshal_genealogy g) ≡ ok g
unfolding unmarshal_genealogy marshal_genealogy
unmarshal-marshal_genealogy g h = ground arith

pub unmarshal-marshal_membership :
    (m : Membership) → m.role < 256 → unmarshal_membership (marshal_membership m) ≡ ok m
unfolding unmarshal_membership marshal_membership
unmarshal-marshal_membership m h = ground (arith, eq_iff m.granted_by "")

unmarshal-marshal_ban : (b : Ban) → unmarshal_ban (marshal_ban b) ≡ ok b
unfolding unmarshal_ban marshal_ban
unmarshal-marshal_ban b = ground (arith, eq_iff b.reason "")

-- Unmarshalling what was marshalled gives the record, for every user and ban, and for every
-- genealogy and membership whose enum fits its byte, with the members that `omitempty` leaves out.
pub records_round_trip :
    (u : User) (g : Genealogy) (m : Membership) (b : Ban)
    → g.visibility < 256
    → m.role < 256
    → (unmarshal_user (marshal_user u) ≡ ok u)
      × (unmarshal_genealogy (marshal_genealogy g) ≡ ok g)
      × (unmarshal_membership (marshal_membership m) ≡ ok m)
      × (unmarshal_ban (marshal_ban b) ≡ ok b)
records_round_trip u g m b hg hm = (
  unmarshal-marshal_user u,
  unmarshal-marshal_genealogy g hg,
  unmarshal-marshal_membership m hm,
  unmarshal-marshal_ban b,
)
