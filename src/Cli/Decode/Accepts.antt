-- ===== src/Cli/Decode/Accepts.antt =====
-- Which arguments of a forward-protocol command are accepted.
use ops_ipapps.Base.{
  ℕ, ◌≡◌, ◌⊎◌, refl, sym, ap, subst, ◌∙◌, true, false, Option, none, some, List, [], ◌∷◌, ℤ, pos,
  int_eq, if◌then◌else◌, Text, arith, Bool-cases, Option-cases, inl, inr,
}
use ops_ipapps.Global.{atoi}
use ops_ipapps.Global.Columns.{int_eq→eq}
use ops_ipapps.Relay.{same_text}
use ops_ipapps.Cli.{invalid_address}
use ops_ipapps.Cli.ServerConfig.Totals.{same_text_refl}
use ops_ipapps.Cli.Decode.{
  Ipv4, UdpServer, rejected, accepted, for_forwarder, udp_protocol, starts_alpha, number_of, listed,
  decode_port, rejection, with_server_port, decode_address, decode_server_param,
}

-- A line of a table of protocols.
abbrev pub Line : Text → ℕ → List (Text × ℕ) → Type 0
Line name number [] = ⊥
Line name number ((word, n) ∷ rest) =
    ((same_text name word ≡ true) × (n ≡ number)) ⊎ Line name number rest

-- The port is the number of a line of the table, whose name or number the argument spells.
abbrev pub Names : Text → ℕ → Type 0
Names arg number =
    (starts_alpha arg ≡ true) × Line arg number udp_protocol
    ⊎ (starts_alpha arg ≡ false)
      × (atoi arg ≡ pos number)
      × ((word : Text) × Line word number udp_protocol)

number_of-Line :
    (name : Text) (table : List (Text × ℕ)) (n : ℕ)
    → number_of name table ≡ some n
    → Line name n table
number_of-Line name [] n e = cc
number_of-Line name ((word, m) ∷ rest) n e = elim (Bool-cases (same_text name word)) [
  | inl h ↦ let same : some m ≡ some n = simp h at e in inl (h, cc)
  | inr h ↦ inr (number_of-Line name rest n (simp h at e))
]

listed-Line :
    (z : ℤ) (table : List (Text × ℕ)) (n : ℕ)
    → listed z table ≡ some n
    → (z ≡ pos n) × ((word : Text) × Line word n table)
listed-Line z [] n e = cc
listed-Line z ((word, m) ∷ rest) n e = elim (Bool-cases (int_eq z (pos m))) [
  | inl h ↦
      let same : some m ≡ some n = simp h at e in
      let number : m ≡ n = cc in
      (sym (int_eq→eq z (pos m) h) ∙ ap pos number, (word, inl (same_text_refl word, number)))
  | inr h ↦
      let (spells, there) = listed-Line z rest n (simp h at e) in (spells, (there.0, inr there.1))
]

decode_port-Names : (arg : Text) (n : ℕ) → decode_port arg ≡ some n → Names arg n
unfolding decode_port
decode_port-Names arg n e = elim (Bool-cases (starts_alpha arg)) [
  | inl h ↦ inl (h, number_of-Line arg udp_protocol n (simp h at e))
  | inr h ↦
      let (spells, there) = listed-Line (atoi arg) udp_protocol n (simp h at e) in
      inr (h, spells, there)
]

-- An address that a forwarder may send to: a valid one, or a subnet's broadcast address.
abbrev pub Sendable : Ipv4 → ℕ → Type 0
Sendable ip addr =
    (ip.is_valid addr ≡ true)
    ⊎ ((ip.is_broadcast addr ≡ false) × (ip.is_subnet_broadcast addr ≡ true))

pub record Accepts (ip : Ipv4) (address port : Text) (server : UdpServer) : Type 0 where
  pub addr : ℕ
  pub parses : ip.inet_pton address ≡ some addr
  pub sendable : Sendable ip addr
  pub ip_addr : server.ip_addr ≡ address
  pub udp_port : Names port server.udp_port

rejection-Sendable :
    (ip : Ipv4) (addr : ℕ)
    → (if ip.is_valid addr then none else rejection ip for_forwarder addr) ≡ none
    → Sendable ip addr
rejection-Sendable ip addr e = ground arith

with_server_port-Names :
    (address port : Text) (n : Option ℕ) (server : UdpServer)
    → decode_port port ≡ n
    → with_server_port address n ≡ accepted server
    → (server.ip_addr ≡ address) × Names port server.udp_port
with_server_port-Names address port none server d e = cc
with_server_port-Names address port (some n) server d e =
    let same : record { ip_addr = address; udp_port = n } ≡ server = cc in
    subst (λ (u : UdpServer). (u.ip_addr ≡ address) × Names port u.udp_port) same
      (refl, decode_port-Names port n d)

parsed-Accepts :
    (ip : Ipv4) (address port : Text) (addr : ℕ) (server : UdpServer)
    → ip.inet_pton address ≡ some addr
    → decode_address ip for_forwarder address port (some addr) ≡ accepted server
    → Accepts ip address port server
parsed-Accepts ip address port addr server is e =
    elim (Option-cases (if ip.is_valid addr then none else rejection ip for_forwarder addr)) [
      | inl fine ↦
          let (same, names) =
            with_server_port-Names address port (decode_port port) server refl (simp fine at e) in
          record {
            addr = addr;
            parses = is;
            sendable = rejection-Sendable ip addr fine;
            ip_addr = same;
            udp_port = names;
          }
      | inr (message, bad) ↦
          let impossible : rejected message ≡ accepted server = simp bad at e in cc
    ]

-- An argument pair of a forward-protocol command is accepted only with an address that inet_pton
-- reads and that is valid or a subnet's broadcast address, and with a port that is in the table of
-- protocols: by its name if it starts with a letter, by its number if not. The server is then this
-- address and this port.
pub decode_server_param-Accepts :
    (ip : Ipv4) (address port : Text) (server : UdpServer)
    → decode_server_param ip for_forwarder address port ≡ accepted server
    → Accepts ip address port server
unfolding decode_server_param
decode_server_param-Accepts ip address port server e = elim (Option-cases (ip.inet_pton address)) [
  | inl none_read ↦
      let impossible : rejected invalid_address ≡ accepted server = simp none_read at e in cc
  | inr (addr, is) ↦
      let decoded : decode_address ip for_forwarder address port (some addr) ≡ accepted server =
        simp is at e in
      parsed-Accepts ip address port addr server is decoded
]
