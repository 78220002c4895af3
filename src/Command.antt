-- ===== src/Command.antt =====
-- detail/command.hpp, command.inl and command.cpp: the messages between clients and servers.
use libpaxos_cpp.Base.{
  Bytes, Map, Option, Outcome, [], assert, contains, fault, insert, negsuc, none, not, ok, some,
  thrown, ℕ, ℤ, ℤ_order, ◌>>◌,
}
use libpaxos_cpp.Errors.{ErrorCode, no_error}

pub data CommandType : Type 0 where
  type_invalid : CommandType
  type_request_initiate : CommandType
  type_request_prepare : CommandType
  type_request_promise : CommandType
  type_request_fail : CommandType
  type_request_accept : CommandType
  type_request_accepted : CommandType
  type_request_error : CommandType

-- The host's uuid and endpoint travel as text. `none` is the empty text of a command on which they
-- were never set.
pub record Command : Type 0 where
  pub type_ : CommandType
  pub error_code : ErrorCode
  pub host_id : Option ℕ
  pub host_endpoint : Option ℕ
  pub next_proposal_id : ℤ
  pub highest_proposal_id : ℤ
  pub lowest_proposal_id : ℤ
  pub workload : Bytes
  pub proposed_workload : Map ℤ Bytes

abbrev pub new_command : Command
new_command = record {
  type_ = type_invalid;
  error_code = no_error;
  host_id = none;
  host_endpoint = none;
  next_proposal_id = negsuc 0;
  highest_proposal_id = negsuc 0;
  lowest_proposal_id = negsuc 0;
  workload = [];
  proposed_workload = [];
}

abbrev pub set_type : CommandType → Command → Command
set_type t c = record c { type_ = t }

abbrev pub set_error_code : ErrorCode → Command → Command
set_error_code e c = record c { error_code = e }

abbrev pub set_host_id : ℕ → Command → Command
set_host_id id c = record c { host_id = some id }

abbrev pub set_host_endpoint : ℕ → Command → Command
set_host_endpoint e c = record c { host_endpoint = some e }

abbrev pub set_next_proposal_id : ℤ → Command → Command
set_next_proposal_id p c = record c { next_proposal_id = p }

abbrev pub set_highest_proposal_id : ℤ → Command → Command
set_highest_proposal_id p c = record c { highest_proposal_id = p }

abbrev pub set_lowest_proposal_id : ℤ → Command → Command
set_lowest_proposal_id p c = record c { lowest_proposal_id = p }

abbrev pub set_workload : Bytes → Command → Command
set_workload w c = record c { workload = w }

abbrev pub set_proposed_workload : Map ℤ Bytes → Command → Command
set_proposed_workload w c = record c { proposed_workload = w }

-- Text that was never set does not parse.
abbrev pub or_throw {ℓ} : {A : Type ℓ} → Option A → Outcome A
or_throw none = fault thrown
or_throw (some a) = ok a

abbrev pub host_id : Command → Outcome ℕ
host_id c = or_throw c.host_id

abbrev pub host_endpoint : Command → Outcome ℕ
host_endpoint c = or_throw c.host_endpoint

unfoldable pub add_proposed_workload : ℤ → Bytes → Command → Outcome Command
add_proposed_workload p w c = do
  assert (not (contains p c.proposed_workload))
  ok (record c { proposed_workload = insert p w c.proposed_workload })
