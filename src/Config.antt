-- ===== src/Config.antt =====
-- firmware/midi_config.h, and the board settings of firmware/board_r1.h and firmware/board_r2.h
-- on which the code branches or computes.
use midex_class_firmware.Base.{ℕ, Bool, true, false}

-- NUM_MIDI_PORTS
abbrev pub num_midi_ports : ℕ
num_midi_ports = 8

-- MIDI_EP_MAXPKT
abbrev pub midi_ep_maxpkt : ℕ
midi_ep_maxpkt = 64

-- MIDI_TX_RING_SIZE
abbrev pub midi_tx_ring_size : ℕ
midi_tx_ring_size = 128

-- MIDI_RX_RING_SIZE
abbrev pub midi_rx_ring_size : ℕ
midi_rx_ring_size = 256

-- MIDEX_RX_FIFO_SIZE
abbrev pub midex_rx_fifo_size : ℕ
midex_rx_fifo_size = 16

-- UART_LSR_DR
abbrev pub uart_lsr_dr : ℕ
uart_lsr_dr = 0x01

-- UART_LSR_THRE
abbrev pub uart_lsr_thre : ℕ
uart_lsr_thre = 0x20

-- The macros of the selected board header.
pub record Board : Type 0 where
  pub rev : ℕ
  pub usb_vid : ℕ
  pub usb_pid : ℕ
  pub has_onchip_uart : Bool
  pub num_ext_ports : ℕ
  pub onchip_port_first : ℕ
  pub uart_base : ℕ
  pub uart_stride : ℕ
  pub lcr_dlab : ℕ
  pub lcr_8n1 : ℕ
  pub divisor : ℕ
  pub lcr_max_tries : ℕ
  pub t0_reload : ℕ
  pub t0_prescale : ℕ

abbrev pub r1 : Board
r1 = record {
  rev = 1;
  usb_vid = 0x0A4E;
  usb_pid = 0x10C1;
  has_onchip_uart = false;
  num_ext_ports = 8;
  onchip_port_first = 8;
  uart_base = 0x4040;
  uart_stride = 0x08;
  lcr_dlab = 0x83;
  lcr_8n1 = 0x03;
  divisor = 1;
  lcr_max_tries = 50;
  t0_reload = 0x46;
  t0_prescale = 3;
}

abbrev pub r2 : Board
r2 = record {
  rev = 2;
  usb_vid = 0x0A4E;
  usb_pid = 0x10C2;
  has_onchip_uart = true;
  num_ext_ports = 6;
  onchip_port_first = 6;
  uart_base = 0x4040;
  uart_stride = 0x08;
  lcr_dlab = 0x83;
  lcr_8n1 = 0x03;
  divisor = 24;
  lcr_max_tries = 50;
  t0_reload = 0x46;
  t0_prescale = 3;
}
