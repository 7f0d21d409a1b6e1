-- ===== src/Lib.antt =====
-- chan_datacard, a channel driver for Asterisk over 3G modems: the parts of it that compute on data
-- of their own.
--
-- Base holds what the modules share: Boolean tests and the conditional on the native numbers, lists
-- measured by them, tables, and `size_t` and `unsigned` arithmetic with its wrap-around.
--
-- Bytes is memmem.c, beside the C library's memcmp and memchr on byte strings. RingBuffer is
-- ringbuffer.h and ringbuffer.c, through which every byte of the modem's data port and of the voice
-- streams goes: a record with the struct's fields, and a function for each `rb_` function, whose
-- `iovec` arrays and changed struct are returned. RingBuffer/Valid has its invariant and the bytes
-- held, and the other modules below it are about reading, writing and searching. The searches give
-- offsets in place of pointers.
--
-- MixBuffer is mixbuffer.h and mixbuffer.c, which mixes the voice of several calls into one ring
-- buffer: it keeps a list of pointers to streams and a store of their positions, and calls
-- RingBuffer for its buffer. Asterisk's saturated sum of two samples is a parameter.
--
-- AtQueue is at_queue.h and at_queue.c: the queue of tasks, each a list of AT commands. AtQueue/View
-- has its invariant and the specification, the list of the commands without an answer.
-- `ast_malloc`, the clock, `ast_tvadd` and the device are arguments; AtQueue/Device gives `write_all`
-- the outcome of each call of `write`. A pointer to a command's text is a number, and the pointers
-- handed to `ast_free` are listed.
--
-- AtRead is the part of at_read.c that takes answers out of the ring buffer, with the table of
-- answers of at_response.c. One activation of `at_read_result_iov` is `round`, which returns or calls
-- again. AtRead/Consume is about what a round takes, AtRead/Framing about the result.
--
-- CharConv is char_conv.h and char_conv.c, which recode texts between UTF-8 and the encodings of the
-- modem: hex digits, packed 7-bit characters and UCS-2. A result is the text written or the negative
-- number returned, and iconv is a parameter. CharConv/Hex, CharConv/Packed and CharConv/Encoding are about its parts.
--
-- Pdu is pdu.c: the PDUs of short messages. Pdu has the fields, Pdu/Parse `pdu_parse` with a function
-- for each field, and Pdu/Build `pdu_build`, which recodes the text with CharConv. The text behind
-- `*pdu` is given, with its length, as the rest of it. Pdu/Parse/RoundTrip and Pdu/Build/Layout write
-- the messages down as GSM 03.40 has them, Pdu/Build/Octets the digits of a number and the alphabet.
--
-- Scan is what the C library's sscanf, strtol, strcmp and snprintf do for the conversions that are
-- used, with a round trip for decimal numbers in Scan/Decimal.
--
-- AtParse is at_parse.c, the values in the modem's answers: a text is the list of its characters, and
-- the delimiters that `mark_line` finds are offsets. AtParse/Creg is the state machine of
-- `at_parse_creg`, AtParse/Cmgr `at_parse_cmgr`, which calls Pdu. AtParse/Marks is about marked lines
-- and AtParse/Lines about the answers that are cut at marks.
--
-- Calls is cpvt.c with what chan_datacard.c and channel.c keep about the calls of a device. A call or
-- a channel of Asterisk is a number, the list of calls is a list of records, and the calls of Asterisk
-- and the system are collected in the field `asked`. Calls/Change has the functions of channel.c that
-- change the state of a call, Calls/Dial those of chan_datacard.c that look at the list. Calls/Valid is
-- the invariant; it ties the list to the counters, to the tasks of AtQueue and to the streams of
-- MixBuffer. Calls/Total is about lists of calls; Calls/Alloc, Calls/Update, Calls/Activate, Calls/Mark
-- and Calls/ChangeState are about the invariant and the functions one by one; Calls/Live and
-- Calls/Release are about the end of a call, and Calls/Reach about sequences of the
-- events that its `Step` lists.
--
-- Commands is at_command.c: `World` is a device with its queue and what `ast_strdup` has returned, and
-- `Env` has the results of the system. Commands/Enqueue and Commands/OfCall have the functions, and
-- Commands/Initialize the list of commands that a device is initialised with; Commands/Sms has those
-- for short messages and USSD codes, which call CharConv and Pdu. Commands/Balance,
-- Commands/Operations, Commands/Customized, Commands/Texts and Commands/Run are about the texts.
--
-- Resource is `find_device_by_resource_ex` of chan_datacard.c over a list of devices. Driver is what
-- happens to a device when a channel is hung up or exchanged (channel.c) and when it is disconnected
-- (chan_datacard.c), over Calls and Commands.
--
-- Fuel: the loop of `write_all` has ten rounds for each byte and eleven more, since a round sends a
-- byte or uses up one of ten retries. The loop of memmem.c and the one over occurrences across the
-- end of the ring buffer have the rounds that their tests allow, and so have the loops over pairs of
-- hex digits. `at_read_result_iov` calls itself on fuel, of which one more than the bytes held is
-- enough, since each call comes after bytes were taken. "%02X" has the eight digits of an `unsigned`.
-- The search for a device has as many rounds as the array has devices.
--
-- Not modelled: logging, the events of the manager interface, locks, threads and file descriptors;
-- the handlers of at_response.c; dc_config.c and the restart of devices; the channel interface of
-- channel.c for frames, and the command line, manager and applications, which call Asterisk.
pub mod Base
pub mod Bytes
pub mod RingBuffer
pub mod MixBuffer
pub mod AtQueue
pub mod AtRead
pub mod CharConv
pub mod Pdu
pub mod Scan
pub mod AtParse
pub mod Calls
pub mod Commands
pub mod Resource
pub mod Driver
