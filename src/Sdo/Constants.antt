-- ===== src/Sdo/Constants.antt =====
-- Command bytes and abort codes (canopen/sdo/constants.py).
use canopen_asyncio.Common.{ℕ}

abbrev pub request_segment_download : ℕ
request_segment_download = 0x00

abbrev pub request_download : ℕ
request_download = 0x20

abbrev pub request_upload : ℕ
request_upload = 0x40

abbrev pub request_segment_upload : ℕ
request_segment_upload = 0x60

abbrev pub request_aborted : ℕ
request_aborted = 0x80

abbrev pub request_block_upload : ℕ
request_block_upload = 0xA0

abbrev pub request_block_download : ℕ
request_block_download = 0xC0

abbrev pub response_segment_upload : ℕ
response_segment_upload = 0x00

abbrev pub response_segment_download : ℕ
response_segment_download = 0x20

abbrev pub response_upload : ℕ
response_upload = 0x40

abbrev pub response_download : ℕ
response_download = 0x60

abbrev pub response_aborted : ℕ
response_aborted = 0x80

abbrev pub response_block_download : ℕ
response_block_download = 0xA0

abbrev pub response_block_upload : ℕ
response_block_upload = 0xC0

abbrev pub initiate_block_transfer : ℕ
initiate_block_transfer = 0x00

abbrev pub end_block_transfer : ℕ
end_block_transfer = 0x01

abbrev pub block_transfer_response : ℕ
block_transfer_response = 0x02

abbrev pub start_block_upload : ℕ
start_block_upload = 0x03

abbrev pub expedited : ℕ
expedited = 0x02

abbrev pub size_specified : ℕ
size_specified = 0x01

abbrev pub block_size_specified : ℕ
block_size_specified = 0x02

abbrev pub crc_supported : ℕ
crc_supported = 0x04

abbrev pub no_more_data : ℕ
no_more_data = 0x01

abbrev pub no_more_blocks : ℕ
no_more_blocks = 0x80

abbrev pub toggle_bit : ℕ
toggle_bit = 0x10

abbrev pub abort_toggle_not_alternated : ℕ
abort_toggle_not_alternated = 0x05030000

abbrev pub abort_timed_out : ℕ
abort_timed_out = 0x05040000

abbrev pub abort_invalid_command_specifier : ℕ
abort_invalid_command_specifier = 0x05040001

abbrev pub abort_invalid_block_size : ℕ
abort_invalid_block_size = 0x05040002

abbrev pub abort_invalid_sequence_number : ℕ
abort_invalid_sequence_number = 0x05040003

abbrev pub abort_crc_error : ℕ
abort_crc_error = 0x05040004

abbrev pub abort_out_of_memory : ℕ
abort_out_of_memory = 0x05040005

abbrev pub abort_unsupported_access : ℕ
abort_unsupported_access = 0x06010000

abbrev pub abort_read_writeonly : ℕ
abort_read_writeonly = 0x06010001

abbrev pub abort_write_readonly : ℕ
abort_write_readonly = 0x06010002

abbrev pub abort_not_in_od : ℕ
abort_not_in_od = 0x06020000

abbrev pub abort_pdo_cannot_map : ℕ
abort_pdo_cannot_map = 0x06040041

abbrev pub abort_pdo_length_exceeded : ℕ
abort_pdo_length_exceeded = 0x06040042

abbrev pub abort_parameter_incompatible : ℕ
abort_parameter_incompatible = 0x06040043

abbrev pub abort_internal_incompatibility : ℕ
abort_internal_incompatibility = 0x06040047

abbrev pub abort_hardware_error : ℕ
abort_hardware_error = 0x06060000

abbrev pub abort_length_not_matched : ℕ
abort_length_not_matched = 0x06070010

abbrev pub abort_length_too_high : ℕ
abort_length_too_high = 0x06070012

abbrev pub abort_length_too_low : ℕ
abort_length_too_low = 0x06070013

abbrev pub abort_no_subindex : ℕ
abort_no_subindex = 0x06090011

abbrev pub abort_invalid_value : ℕ
abort_invalid_value = 0x06090030

abbrev pub abort_value_too_high : ℕ
abort_value_too_high = 0x06090031

abbrev pub abort_value_too_low : ℕ
abort_value_too_low = 0x06090032

abbrev pub abort_maximum_less_than_minimum : ℕ
abort_maximum_less_than_minimum = 0x06090036

abbrev pub abort_no_sdo_connection : ℕ
abort_no_sdo_connection = 0x060A0023

abbrev pub abort_general_error : ℕ
abort_general_error = 0x08000000

abbrev pub abort_store_application : ℕ
abort_store_application = 0x08000020

abbrev pub abort_application_local_control : ℕ
abort_application_local_control = 0x08000021

abbrev pub abort_application_device_state : ℕ
abort_application_device_state = 0x08000022

abbrev pub abort_od_generation : ℕ
abort_od_generation = 0x08000023

abbrev pub abort_no_data_available : ℕ
abort_no_data_available = 0x08000024
