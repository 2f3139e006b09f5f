-- ===== src/Time.antt =====
-- arch/x86/time/pit.cpp and rtc.cpp: the interval timer and the real-time clock.
pub mod Encoding
use os_from_scratch.Common.{
  ℕ, zero, suc, ◌+◌, ◌*◌, ◌/◌, ◌%◌, ◌^◌, Bool, false, true, ◌||◌, List, Option, none, some, bit_and,
  bit_or, ltb, ◌==◌, if◌then◌else◌,
}
use os_from_scratch.Common.Word.{u8, ◌>>◌}
use os_from_scratch.Ports.{Event, Device, out_byte, in_byte}
use os_from_scratch.Pic.{arch_irq_send_eoi, arch_irq_enable, arch_irq_disable}

abbrev pub pit_base_freq : ℕ
pit_base_freq = 1193182

-- `false` is the answer -1, `true` the answer 0.
unfoldable pub arch_timer_init : ℕ → List Event → Bool × List Event
arch_timer_init hz history =
    if hz == 0 || ltb 596591 hz
    then (false, history)
    else (let divisor = pit_base_freq / hz in
        (
          true,
          out_byte 0x40 (u8 (divisor >> 8))
              (out_byte 0x40 (u8 (bit_and divisor 0xFF)) (out_byte 0x43 0x36 history)),
        ))

abbrev pub arch_timer_eoi : List Event → List Event
arch_timer_eoi history = arch_irq_send_eoi 0 history

abbrev pub arch_timer_enable : Device → List Event → List Event
arch_timer_enable device history = arch_irq_enable device 0 history

abbrev pub arch_timer_disable : Device → List Event → List Event
arch_timer_disable device history = arch_irq_disable device 0 history

-- BCD_TO_BINARY, and its cast to uint8_t.
unfoldable pub bcd_to_binary : ℕ → ℕ
bcd_to_binary bcd = u8 ((bcd >> 4) * 10 + bit_and bcd 0x0F)

pub record RtcTime : Type 0 where
  pub second : ℕ
  pub minute : ℕ
  pub hour : ℕ
  pub day : ℕ
  pub month : ℕ
  pub year : ℕ

abbrev pub rtc_read_register : Device → ℕ → List Event → ℕ × List Event
rtc_read_register device reg history = in_byte device 0x71 (out_byte 0x70 reg history)

abbrev pub rtc_write_register : ℕ → ℕ → List Event → List Event
rtc_write_register reg value history = out_byte 0x71 value (out_byte 0x70 reg history)

-- The loop that waits for an update to end. `none`: the fuel ran out.
unfoldable pub wait_update : ℕ → Device → List Event → Option (List Event)
wait_update zero device history = none
wait_update (suc fuel) device history =
    let (status, history1) = rtc_read_register device 0x0A history in
    let rest = wait_update fuel device history1 in
    if bit_and status 0x80 == 0 then some history1 else rest

abbrev pub convert : (ℕ → ℕ) → RtcTime → RtcTime
convert f t = record {
  second = f t.second;
  minute = f t.minute;
  hour = f t.hour;
  day = f t.day;
  month = f t.month;
  year = f t.year;
}

-- arch_rtc_get_time once the wait is over.
unfoldable pub read_time : Device → List Event → RtcTime × List Event
unfolding bcd_to_binary
read_time device history =
    let (second, history1) = rtc_read_register device 0x00 history in
    let (minute, history2) = rtc_read_register device 0x02 history1 in
    let (hour, history3) = rtc_read_register device 0x04 history2 in
    let (day, history4) = rtc_read_register device 0x07 history3 in
    let (month, history5) = rtc_read_register device 0x08 history4 in
    let (year, history6) = rtc_read_register device 0x09 history5 in
    let (status_b, history7) = rtc_read_register device 0x0B history6 in
    let read : RtcTime = record {
      second = second;
      minute = minute;
      hour = hour;
      day = day;
      month = month;
      year = year;
    } in
    (if bit_and status_b 0x04 == 0 then convert bcd_to_binary read else read, history7)

unfoldable pub arch_rtc_get_time : ℕ → Device → List Event → Option (RtcTime × List Event)
unfolding wait_update read_time
arch_rtc_get_time fuel device history = elim (wait_update fuel device history) [
  | none ↦ none
  | some history1 ↦ some (read_time device history1)
]

unfoldable pub arch_rtc_set_time : ℕ → Device → RtcTime → List Event → Option (List Event)
unfolding wait_update
arch_rtc_set_time fuel device t history = elim (wait_update fuel device history) [
  | none ↦ none
  | some history1 ↦ some (
      rtc_write_register 0x09 t.year (
        rtc_write_register 0x08 t.month (
          rtc_write_register 0x07 t.day (
            rtc_write_register 0x04 t.hour
              (rtc_write_register 0x02 t.minute (rtc_write_register 0x00 t.second history1))))))
]

unfoldable pub arch_rtc_init : Device → List Event → List Event
arch_rtc_init device history =
    let (status_b, history1) = rtc_read_register device 0x0B history in
    rtc_write_register 0x0B (bit_or status_b 0x02) history1
