-- ===== src/NeonClone/Address.antt =====
-- The addresses of a clone (tools/neonclone.py).
use sunstorm_xactserver.Base.{
  ℕ, ◌+◌, ◌≡◌, refl, ◌∙◌, ap, ◌<>◌, String, true, Option, none, some, List, [], ◌∷◌, map, arith,
  ◌==◌, string_eq, if◌then◌else◌,
}
use sunstorm_xactserver.Base.Number.{all_digits-show, int-show}
use sunstorm_xactserver.Base.Result.{ok}
use sunstorm_xactserver.Base.Split.{lacks, split_two, lacks_of_digits}
use sunstorm_xactserver.Base.Text.{show}
use sunstorm_xactserver.NeonClone.{
  PageserverToml, Safekeeper, Config, NeonDir, join_address, bump_port, change_parts, change_addr,
  edit_pageserver, edit_config, edit_ports, edit_configs,
}

-- `host:port`
abbrev pub address : String → ℕ → String
address host port = host <> String.◌∷◌ ":" (show port)

-- The host that is given, if it is not empty, or else the old one.
abbrev pub new_host : Option String → String → String
new_host none host = host
new_host (some given) host = if given == "" then host else given

join_address-address :
    (hostname : Option String) (host : String) (port : ℕ)
    → join_address hostname host port ≡ address (new_host hostname host) port
join_address-address none host port = refl
join_address-address (some given) host port = refl

-- A safekeeper with its ports moved up.
abbrev pub moved_up : ℕ → Safekeeper → Safekeeper
moved_up ordinal sk = record {
  id = sk.id;
  http_port = sk.http_port + ordinal;
  pg_port = sk.pg_port + ordinal;
}

edit_ports-map :
    (ordinal : ℕ) (sks : List Safekeeper) → edit_ports ordinal sks ≡ map (moved_up ordinal) sks
unfolding edit_ports
edit_ports-map ordinal [] = refl
edit_ports-map ordinal (sk ∷ sks) =
    ap (λ rest. moved_up ordinal sk ∷ rest) (edit_ports-map ordinal sks)

-- An address is taken apart and put together: the port goes up by the offset, and the host is the
-- one that is given, if it is not empty.
change_addr-address :
    (ordinal : ℕ) (hostname : Option String) (host : String) (port : ℕ)
    → lacks b':' host ≡ true
    → change_addr ordinal hostname (address host port)
      ≡ ok (address (new_host hostname host) (port + ordinal))
unfolding change_addr
change_addr-address ordinal hostname host port h =
    ap (λ parts. change_parts ordinal hostname parts)
      (split_two b':' ":" host (show port) h
        (lacks_of_digits b':' (show port) (omega arith) (all_digits-show port)) refl)
    ∙ ap (λ o. bump_port ordinal hostname host o) (int-show port)
    ∙ ap ok (join_address-address hostname host (port + ordinal))

edit_pageserver-address :
    (ordinal : ℕ) (hostname : Option String) (host : String) (http pg : ℕ) (t : PageserverToml)
    → lacks b':' host ≡ true
    → t.listen_http_addr ≡ address host http
    → t.listen_pg_addr ≡ address host pg
    → edit_pageserver ordinal hostname t
      ≡ ok (record {
        listen_http_addr = address (new_host hostname host) (http + ordinal);
        listen_pg_addr = address (new_host hostname host) (pg + ordinal);
        id = t.id + ordinal;
      })
unfolding edit_pageserver
edit_pageserver-address ordinal hostname host http pg t h e e' = rw (
  ap (change_addr ordinal hostname) e ∙ change_addr-address ordinal hostname host http h,
  ap (change_addr ordinal hostname) e' ∙ change_addr-address ordinal hostname host pg h,
)

edit_config-address :
    (ordinal : ℕ) (hostname : Option String) (host : String) (xact : ℕ) (c : Config)
    → lacks b':' host ≡ true
    → c.xactserver_listen_pg_addr ≡ address host xact
    → (edited : PageserverToml)
    → edit_config ordinal hostname edited c
      ≡ ok (record {
        pageserver = edited;
        xactserver_listen_pg_addr = address (new_host hostname host) (xact + ordinal);
        safekeepers = map (moved_up ordinal) c.safekeepers;
      })
unfolding edit_config
edit_config-address ordinal hostname host xact c h e edited = rw (
  ap (change_addr ordinal hostname) e ∙ change_addr-address ordinal hostname host xact h,
  edit_ports-map ordinal c.safekeepers,
)

-- The addresses that `edit_configs` takes apart.
pub record HasAddresses (neon : NeonDir) (host : String) (http pg xact : ℕ) : Type 0 where
  pub host_lacks : lacks b':' host ≡ true
  pub http_addr : neon.pageserver_toml.listen_http_addr ≡ address host http
  pub pg_addr : neon.pageserver_toml.listen_pg_addr ≡ address host pg
  pub xact_addr : neon.config.xactserver_listen_pg_addr ≡ address host xact

-- With addresses of the form `host:port` and no colon in the host, the edit succeeds. The host
-- becomes the one that is given, if it is not empty; the ports of the pageserver, the xactserver and
-- the safekeepers and the id of the pageserver go up by the offset; the safekeepers' ids do not
-- change, and the two files agree on the pageserver, whatever `config` said of it before.
pub edit_configs_lem :
    (ordinal : ℕ) (hostname : Option String) (neon : NeonDir) (host : String) (http pg xact : ℕ)
    → HasAddresses neon host http pg xact
    → let edited : PageserverToml = record {
      listen_http_addr = address (new_host hostname host) (http + ordinal);
      listen_pg_addr = address (new_host hostname host) (pg + ordinal);
      id = neon.pageserver_toml.id + ordinal;
    } in
      edit_configs ordinal hostname neon ≡ (
        ok tt,
        record neon {
          pageserver_toml = edited;
          config = record {
            pageserver = edited;
            xactserver_listen_pg_addr = address (new_host hostname host) (xact + ordinal);
            safekeepers = map (moved_up ordinal) neon.config.safekeepers;
          };
        },
      )
unfolding edit_configs
edit_configs_lem ordinal hostname neon host http pg xact h =
    let edited : PageserverToml = record {
      listen_http_addr = address (new_host hostname host) (http + ordinal);
      listen_pg_addr = address (new_host hostname host) (pg + ordinal);
      id = neon.pageserver_toml.id + ordinal;
    } in
    let first =
      edit_pageserver-address ordinal hostname host http pg neon.pageserver_toml h.host_lacks
        h.http_addr h.pg_addr in
    let second =
      edit_config-address ordinal hostname host xact neon.config h.host_lacks h.xact_addr edited in
    rw (first, edit_configs, second)
