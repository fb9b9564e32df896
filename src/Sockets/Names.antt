-- ===== src/Sockets/Names.antt =====
-- The listing of addresses of chapter_16/16.3.c, as words. The numbers are those of the system's headers
-- on Linux; ntohs, inet_ntop and the names are parameters.
use apue_note.Common.{ℕ, ◌/◌, ◌%◌, Option, none, some, List, [], ◌∷◌, ◌++◌, ◌==◌, if◌then◌else◌}

pub data Word : Type 0 where
  family : Word
  type : Word
  protocol : Word
  flags : Word
  inet : Word
  inet6 : Word
  unix : Word
  unspecified : Word
  unknown : Word
  unknown_number : ℕ → Word
  stream : Word
  datagram : Word
  seqpacket : Word
  raw : Word
  default : Word
  tcp : Word
  udp : Word
  nought : Word
  passive : Word
  canon : Word
  numhost : Word
  numserv : Word
  v4mapped : Word
  all : Word
  host : Word
  address : Word
  port : ℕ → Word
  text : List ℕ → Word
  dash : Word
  newline : Word

-- AF_INET is 2, AF_INET6 10, AF_UNIX 1 and AF_UNSPEC 0.
unfoldable pub print_family : ℕ → List Word
print_family n =
    family
    ∷ (if n == 2
        then inet
        else (if n == 10
            then inet6
            else (if n == 1 then unix else (if n == 0 then unspecified else unknown))))
    ∷ []

-- SOCK_STREAM is 1, SOCK_DGRAM 2, SOCK_SEQPACKET 5 and SOCK_RAW 3.
unfoldable pub print_type : ℕ → List Word
print_type n =
    type
    ∷ (if n == 1
        then stream
        else (if n == 2
            then datagram
            else (if n == 5 then seqpacket else (if n == 3 then raw else unknown_number n))))
    ∷ []

-- IPPROTO_TCP is 6, IPPROTO_UDP 17 and IPPROTO_RAW 255.
unfoldable pub print_protocol : ℕ → List Word
print_protocol n =
    protocol
    ∷ (if n == 0
        then default
        else (if n == 6
            then tcp
            else (if n == 17 then udp else (if n == 255 then raw else unknown_number n))))
    ∷ []

-- if (aip->ai_flags & bit) printf(word), for a bit that is a power of two
abbrev pub flag : ℕ → ℕ → Word → List Word
flag f bit w = if f / bit % 2 == 1 then w ∷ [] else []

-- AI_PASSIVE is 1, AI_CANONNAME 2, AI_NUMERICHOST 4, AI_NUMERICSERV 1024, AI_V4MAPPED 8 and AI_ALL 16.
unfoldable pub print_flags : ℕ → List Word
print_flags f =
    flags
    ∷ (if f == 0
        then nought ∷ []
        else flag f 1 passive
          ++ flag f 2 canon
          ++ flag f 4 numhost
          ++ flag f 1024 numserv
          ++ flag f 8 v4mapped
          ++ flag f 16 all)

pub record AddrInfo : Type 0 where
  pub ai_flags : ℕ
  pub ai_family : ℕ
  pub ai_socktype : ℕ
  pub ai_protocol : ℕ
  pub ai_canonname : Option (List ℕ)
  pub sin_addr : ℕ
  pub sin_port : ℕ

abbrev pub or_dash : Option (List ℕ) → Word
or_dash none = dash
or_dash (some name) = text name

abbrev pub or_unknown : Option (List ℕ) → Word
or_unknown none = unknown
or_unknown (some a) = text a

-- The loop of main over the addresses
module _ (ntohs : ℕ → ℕ) (inet_ntop : ℕ → Option (List ℕ)) where
  unfoldable pub print_all : List AddrInfo → List Word
  print_all [] = []
  print_all (a ∷ ais) =
      print_flags a.ai_flags
      ++ print_family a.ai_family
      ++ print_type a.ai_socktype
      ++ print_protocol a.ai_protocol
      ++ (host ∷ or_dash a.ai_canonname ∷ [])
      ++ (if a.ai_family == 2
          then address ∷ or_unknown (inet_ntop a.sin_addr) ∷ port (ntohs a.sin_port) ∷ []
          else [])
      ++ newline ∷ print_all ais
