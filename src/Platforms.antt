-- ===== src/Platforms.antt =====
-- platforms/platform_base.hpp, platforms/platforms.cpp and the constructors of the four platforms.
pub mod Listeners
pub mod Publish
pub mod Distinct
pub mod Registry
use dmproxy.Base.{
  Bytes, codes, ℕ, List, [], Bool, true, false, ◌&&◌, Option, none, some, ◌==◌, bytes_eq, length,
  if◌then◌else◌,
}
use dmproxy.Utils.Numbers.{str_is_num}

-- The subclass of an object.
pub data Kind : Type 0 where
  huajiao douyu bilibili yy : Kind

-- The members of `platform_base`. A connection handle is a number, its place in the order of
-- `std::owner_less`, the set of them a list in this order; `has_close_callback` says that `m_close_callback` is no longer null.
pub record Platform : Type 0 where
  pub kind : Kind
  pub platform_name : Bytes
  pub roomid : Bytes
  pub listeners : List ℕ
  pub has_close_callback : Bool

-- The constructor of the base class.
abbrev pub platform_base : Kind → Bytes → Bytes → Platform
platform_base k platform_name roomid = record {
  kind = k;
  platform_name = platform_name;
  roomid = roomid;
  listeners = [];
  has_close_callback = false;
}

-- The lambdas of `platforms_init`, each of which runs the constructor of its class.
abbrev pub creator : Kind → Bytes → Platform
creator huajiao roomid = platform_base huajiao (codes "huajiao") roomid
creator douyu roomid = platform_base douyu (codes "douyu") roomid
creator bilibili roomid = platform_base bilibili (codes "bilibili") roomid
creator yy roomid = platform_base yy (codes "YY") roomid

-- `platform_creator_table` after `platforms_init`, as a look-up of a tag.
unfoldable pub platform_creator_table : Bytes → Option Kind
platform_creator_table tag =
    if bytes_eq tag (codes "huajiao")
    then some huajiao
    else if bytes_eq tag (codes "douyu")
    then some douyu
    else if bytes_eq tag (codes "bilibili")
    then some bilibili
    else if bytes_eq tag (codes "YY")
    then some yy
    else none

-- `none` is the null pointer.
unfoldable pub platform_get_instance : Bytes → Bytes → Option Platform
platform_get_instance tag roomid = elim (platform_creator_table tag) [
  | none ↦ none
  | some k ↦ some (creator k roomid)
]

-- The virtual `is_room_valid`, one clause for each override.
unfoldable pub is_room_valid : Kind → Bytes → Bool
is_room_valid huajiao roomid = str_is_num roomid && length roomid == 9
is_room_valid douyu roomid = str_is_num roomid
is_room_valid bilibili roomid = true
is_room_valid yy roomid = str_is_num roomid
