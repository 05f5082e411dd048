-- ===== src/Error.antt =====
-- How a run can stop: a call of the runtime's `failure` in Assignment04, the exception `error` of
-- Assignment03, which has a message and an offset as well, a C++ exception that main.cpp catches, or an
-- access outside the object that is read or written, which the language leaves undefined.
use vm_design.Common.{ℕ}

-- The reasons that Assignment04/src/file_reader.cpp throws, and those of the standard library.
pub data Exception : Type 0 where
  file_not_found unexpected_end_of_file invalid_symbol_table_size filesize_unknown : Exception
  bad_alloc length_error out_of_range : Exception

-- The messages of `validate`, `failure` and `error`.
pub data Message : Type 0 where
  unexpected_end_of_code unknown_bytecode stack_underflow stack_overflow : Message
  ill_formed_control_flow no_frame sta_unchecked entrypoint_not_specified : Message
  string_out_of_bounds sexp_out_of_bounds sexp_negative_size tag_out_of_bounds : Message
  tag_negative_size jmp_destination cjmp_destination stack_mismatch global_out_of_bounds : Message
  local_out_of_bounds argument_out_of_bounds begin_negative_args begin_negative_locals : Message
  closure_address closure_negative_size closure_global closure_local closure_argument : Message
  closure_captured invalid_varspec callc_negative_args call_destination : Message
  call_negative_args barray_negative_size : Message
  operand_not_integer division_by_zero eq_operands sti_not_reference sta_not_reference : Message
  not_aggregate index_out_of_bounds index_not_integer captured_out_of_bounds : Message
  condition_not_integer frames_overflow frames_underflow callc_not_closure : Message
  callc_destination callc_not_begin call_not_begin invalid_output match_failure : Message
  invalid_symbol_offset invalid_destination array_negative_size : Message

pub data Error : Type 0 where
  failure : Message → ℕ → Error
  thrown : Exception → Error
  undefined : Error
