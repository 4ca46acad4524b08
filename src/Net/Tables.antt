-- ===== src/Net/Tables.antt =====
-- src/net.c: the table of interfaces, the table of routes, and what the system calls read of them.
-- Flags of a byte are Boolean; a name is a C string. `none` is the result -1, and a null pointer in.
use myos.Base.{
  ℕ, ◌+◌, bit_and, Bool, true, false, not, ◌&&◌, Option, none, some, List, [], ◌∷◌, take, replicate,
  leb, ◌==◌, if◌then◌else◌, update,
}
use myos.Base.Int.{ℤ}
use myos.Base.Text.{codes, same_text}
use myos.Base.Search.{first_from}
use myos.Net.{Sockets, State, SockAddr, max_sockets, zeroed}

abbrev pub max_ifs : ℕ
max_ifs = 2

abbrev pub max_routes : ℕ
max_routes = 8

abbrev pub if_name_max : ℕ
if_name_max = 8

pub record NetIf : Type 0 where
  pub name : List ℕ
  pub mac : List ℕ
  pub addr : ℕ
  pub netmask : ℕ
  pub up : Bool
  pub present : Bool

pub record IfReq : Type 0 where
  pub name : List ℕ
  pub addr : ℕ
  pub netmask : ℕ
  pub mac : List ℕ
  pub up : Bool
  pub flags : ℕ

pub record Route : Type 0 where
  pub dest : ℕ
  pub netmask : ℕ
  pub gateway : ℕ

pub record SocketInfo : Type 0 where
  pub in_use : Bool
  pub type : ℕ
  pub state : State
  pub local : SockAddr
  pub remote : SockAddr
  pub owner_pid : ℤ

pub record Tables : Type 0 where
  pub sockets : Sockets
  pub netifs : ℕ → NetIf
  pub routes : ℕ → Route
  pub route_count : ℕ

-- Entries of zero bytes.
abbrev pub no_if : NetIf
no_if = record {
  name = [];
  mac = replicate 6 0;
  addr = 0;
  netmask = 0;
  up = false;
  present = false;
}

abbrev pub no_route : Route
no_route = record { dest = 0; netmask = 0; gateway = 0 }

unfoldable pub init : Tables → Tables
init t = record {
  sockets = λ _. zeroed;
  netifs =
      update
        (update (λ _. no_if) 0
          (record no_if {
            name = codes "lo";
            addr = 0x7F00_0001;
            netmask = 0xFF00_0000;
            up = true;
            present = true;
          }))
        1
        (record no_if {
          name = codes "eth0";
          addr = 0xC0A8_0002;
          netmask = 0xFFFF_FF00;
          mac = 0x52 ∷ 0x54 ∷ 0x00 ∷ 0x12 ∷ 0x34 ∷ 0x56 ∷ [];
          up = true;
          present = true;
        });
  routes = update (λ _. no_route) 0 (record { dest = 0; netmask = 0; gateway = 0xC0A8_0001 });
  route_count = 1;
}

unfoldable pub socket_get : ℕ → Tables → Option SocketInfo
socket_get index t =
    let s = t.sockets index in
    if leb max_sockets index
    then none
    else some (record {
      in_use = s.in_use;
      type = s.type;
      state = s.state;
      local = s.local;
      remote = s.remote;
      owner_pid = s.owner_pid;
    })

unfoldable pub if_get : ℕ → Tables → Option NetIf
if_get index t =
    if leb max_ifs index
    then none
    else if (t.netifs index).present
    then some (t.netifs index)
    else none

-- `req->flags & (1 << k)`
abbrev pub asks : ℕ → IfReq → Bool
asks bit req = not (bit_and req.flags bit == 0)

abbrev pub set_fields : IfReq → NetIf → NetIf
set_fields req e = record e {
  addr = if asks 1 req then req.addr else e.addr;
  netmask = if asks 2 req then req.netmask else e.netmask;
  mac = if asks 4 req then req.mac else e.mac;
  up = if asks 8 req then req.up else e.up;
}

-- Whether an entry is the interface that a request names.
abbrev pub is_named : IfReq → (ℕ → NetIf) → ℕ → Bool
is_named req netifs i =
    (netifs i).present && same_text (take if_name_max (netifs i).name) (take if_name_max req.name)

abbrev pub set_found : IfReq → Option ℕ → Tables → Option Tables
set_found req none t = none
set_found req (some i) t =
    some (record t { netifs = update t.netifs i (set_fields req (t.netifs i)) })

unfoldable pub if_set : Option IfReq → Tables → Option Tables
if_set none t = none
if_set (some req) t = set_found req (first_from (is_named req t.netifs) max_ifs 0) t

unfoldable pub route_get : ℕ → Tables → Option Route
route_get index t = if leb t.route_count index then none else some (t.routes index)

abbrev pub is_route : ℕ → ℕ → (ℕ → Route) → ℕ → Bool
is_route dest netmask routes i = (routes i).dest == dest && (routes i).netmask == netmask

abbrev pub add_found : Route → Option ℕ → Tables → Option Tables
add_found r (some i) t =
    some (record t { routes = update t.routes i (record (t.routes i) { gateway = r.gateway }) })
add_found r none t =
    if leb max_routes t.route_count
    then none
    else some
        (record t { routes = update t.routes t.route_count r; route_count = t.route_count + 1 })

unfoldable pub route_add : Option Route → Tables → Option Tables
route_add none t = none
route_add (some r) t =
    add_found r (first_from (is_route r.dest r.netmask t.routes) t.route_count 0) t
