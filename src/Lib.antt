-- ===== src/Lib.antt =====
-- The class-compliant firmware of the MIDEX8, a USB-MIDI interface with eight ports on an EZ-USB
-- 8051. Two streams of bytes cross it.
--
-- From the instruments to the host: the Timer0 interrupt (firmware/uart.c, uart_rx_isr) reads the
-- receivers of all ports and stores the bytes in one FIFO for each port. The main loop
-- (firmware/midi_parser.c, midi_rx_pump) takes them off, feeds each port's parser, puts the USB-MIDI
-- event packets into a ring, and ships them by the endpoint EP2-IN.
-- From the host to the instruments: the endpoint EP2-OUT receives a bulk packet, and its interrupt
-- raises a flag. The main loop (firmware/main.c) decodes it into one ring for each port
-- (bridge_out), and feeds the UARTs from the rings (uart_tx_pump).
-- Beside them firmware/usb.c serves the control endpoint, and firmware/usb_descriptors.c holds the
-- descriptors by which the host knows the device.
--
-- Files and code:
--   Base, Ring          shared names; arrays as functions; the theory of a ring with two indices
--   Config              firmware/midi_config.h, board_r1.h, board_r2.h
--   Registers           the special function registers that several parts write
--   Cin                 the table cin_len of firmware/main.c
--   Parser              firmware/midi_parser.c: struct port_parser, parse_byte
--   RxPump              firmware/midi_parser.c: emit, rx_ring_count, midi_rx_pump
--   Uart                firmware/uart.c: the capture interrupt and the FIFOs; Uart.Direct has its
--                       reads of the bus
--   RxPath              both together with the host's reads: ticks, turns, sends in any order
--   Dispatch            firmware/uart.c: uart_init, uart_tx_ready, uart_putc
--   UartExt, UartOnchip firmware/uart_ext.c and firmware/uart_onchip.c
--   Bridge              firmware/main.c: tx_reset, tx_room, bridge_out, uart_tx_pump; Bridge.Reopen
--                       has what SET_INTERFACE of firmware/usb.c does to EP2-OUT
--   Bringup             firmware/main.c: board_init, uart_bringup
--   Main                firmware/main.c: main; firmware/usb.c: usb_init; both directions together
--   Wire                both directions on the chips of firmware/uart_ext.c and uart_onchip.c: bytes on
--                       the wires, the receivers under the interrupt and their timing; Wire.Transmit
--                       has the transmitters under the pump, Wire.Both the two on one bus
--   Usb                 firmware/usb.c: the SETUP handler; Usb.Codes has the codes of firmware/usb.h
--   Probe               firmware/main_probe.c, firmware/usb_probe.c
--   Upload              host/midex-fw-upload.c: parse_ihex, the transfers, open_midex and main
--   Descriptors         firmware/usb_descriptors.c, and the structures of firmware/usb.h
--   Tests               concrete runs
--
-- State and operations: C functions keep their names, and each is a function on a record of the
-- variables and registers that it touches. An array is a function on indices. Byte arithmetic is
-- written with its wrap-around. A packet that parse_byte emits is a value, which RxPump writes
-- into the ring. The XDATA bus of the external UARTs and the transmitters behind the bridge are
-- parameters; UartExt.Bank, Uart.Emptied, Wire, Wire.Transmit and Wire.Both say what the code relies
-- on of the chips on the bus. Parameters are also the C library and libusb in the uploader, the host
-- program that loads the firmware from an Intel HEX file. A tick of the interrupt, a turn of the loop
-- that drains a FIFO, a send, and a call of bridge_out or uart_tx_pump are single steps, in any order:
-- each index of a FIFO has one writer, and the 8051 reads and writes a byte at once. Uart.Preempted
-- takes the visit to a FIFO apart into its byte accesses.
--
-- Main starts from any memory that the C types allow, and takes in what comes over USB while the UARTs
-- are brought up. What its theorems need besides, such as that no packet waits when main arms EP2-OUT,
-- is a hypothesis of theirs.
--
-- Time, in Wire.Time, is counted as Timer0 counts, 0.5 us each, and Timer0 has the period that the
-- registers behind the start of main give it. At the settings of both boards a
-- round of three ticks is 558 counts and a byte takes 640, so that an interrupt may be taken 81 counts
-- late.
--
-- Fuel: `drain` has 16, and a FIFO holds at most 15 bytes; `fill` has 17, and 16 packets fill the
-- endpoint; `decode` has 17, and a bulk packet holds at most 16 event packets; `write_chunks` has
-- 5, and four chunks of 64 hold a record. The theorems on them include the reason why each loop
-- ended.
--
-- Not modelled: the delays, which are time only; the uploader's messages; the host's scripts; a
-- SET_INTERFACE inside a call of bridge_out; a byte that comes between two reads of one interrupt; an
-- interrupt between two bus accesses of one call of uart_tx_pump; what a chip does with a byte that
-- finds its receiver full. The registers in firmware/reg_ezusb.h and the jump table are declarations
-- of another project.
pub mod Base
pub mod Config
pub mod Registers
pub mod Ring
pub mod Cin
pub mod Parser
pub mod Uart
pub mod RxPump
pub mod RxPath
pub mod Main
pub mod Bridge
pub mod Usb
pub mod Wire
pub mod Probe
pub mod UartExt
pub mod UartOnchip
pub mod Dispatch
pub mod Bringup
pub mod Upload
pub mod Descriptors
pub mod Tests
