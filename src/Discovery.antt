-- ===== src/Discovery.antt =====
-- internal/discovery/udp.go: the agents that Browse hears. The outcome of each call on the socket
-- is a parameter, and so is encoding/json.
pub mod Unique
use mingyue_go.Base.{
  Bool, Dict, List, Option, Text, [], codes, false, insert, lookup, none, some, true, ◌++◌, ◌∷◌,
}
use mingyue_go.Errors.{OsError, Result, ok, err, annotated, lit, os}

pub record AgentInfo : Type 0 where
  pub hostname : Text
  pub addr : Text
  pub version : Text

-- How the reads of one socket end: its deadline passes, or a read fails otherwise.
pub data End : Type 0 where
  expired : End
  broken : OsError → End

-- What the socket answers: the two calls that prepare it, the datagrams, the first one first, and
-- the error of the read after the last one.
pub record Socket : Type 0 where
  pub listen : Option OsError
  pub set_deadline : Option OsError
  pub datagrams : List Text
  pub end : End

abbrev pub agent_key : AgentInfo → Text
agent_key info = info.hostname ++ codes "|" ++ info.addr

-- seen[key]
unfoldable pub is_seen : Text → Dict Bool → Bool
is_seen key seen = elim (lookup key seen) [ none ↦ false | some b ↦ b ]

-- The loop of Browse up to the read that fails.
unfoldable pub collect :
    (Text → Option AgentInfo) → List Text → Dict Bool → List AgentInfo → List AgentInfo
collect decode [] seen results = results
collect decode (d ∷ ds) seen results = elim (decode d) [
  | none ↦ collect decode ds seen results
  | some info ↦ elim (is_seen (agent_key info) seen) [
    | true ↦ collect decode ds seen results
    | false ↦ collect decode ds (insert (agent_key info) true seen) (results ++ info ∷ [])
  ]
]

-- Browse
unfoldable pub browse : (Text → Option AgentInfo) → Socket → Result (List AgentInfo)
browse decode socket = elim socket.listen [
  | some e ↦ err (annotated (lit "discovery browse: listen multicast" ∷ []) (os e))
  | none ↦ elim socket.set_deadline [
    | some e ↦ err (annotated (lit "discovery browse: set deadline" ∷ []) (os e))
    | none ↦
        let results = collect decode socket.datagrams [] [] in
        elim socket.end [
          | expired ↦ ok results
          | broken e ↦ err (annotated (lit "discovery browse: read" ∷ []) (os e))
        ]
  ]
]
