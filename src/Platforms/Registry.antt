-- ===== src/Platforms/Registry.antt =====
-- platforms/platforms.cpp: which objects `platform_get_instance` makes.
use dmproxy.Base.{Bytes, codes, ◌≡◌, [], false, some, arith, bytes_eq_iff}
use dmproxy.Platforms.{Platform, platform_creator_table, platform_get_instance}

-- An object that the registry makes carries the tag it was looked up by and the room that was
-- asked for, has no listeners and no close callback.
pub platform_get_instance_fields :
    (tag roomid : Bytes) (p : Platform)
    → platform_get_instance tag roomid ≡ some p
    → (p.platform_name ≡ tag)
      × (p.roomid ≡ roomid)
      × (p.listeners ≡ [])
      × (p.has_close_callback ≡ false)
unfolding platform_get_instance platform_creator_table
platform_get_instance_fields tag roomid p h = ground (
  arith,
  bytes_eq_iff tag (codes "huajiao"),
  bytes_eq_iff tag (codes "douyu"),
  bytes_eq_iff tag (codes "bilibili"),
  bytes_eq_iff tag (codes "YY"),
)
