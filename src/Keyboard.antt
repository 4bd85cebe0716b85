-- ===== src/Keyboard.antt =====
-- src/input/kbc_at_device.c and kbc_at_device.h, a keyboard or a mouse at a port of the keyboard
-- controller: its two queues and its state machine. `out_new` is `none` for -1, `scan` is the byte
-- behind the pointer, and the port is a part of the device. NULL pointers are left out, and so are the
-- fields that only the commands use.
pub mod Answer
use pculator.Base.{
  ℕ, ◌+◌, ◌-◌, Bool, true, false, not, ◌&&◌, ◌||◌, Option, none, some, ◌==◌, ◌!=◌, if◌then◌else◌,
  update, bit_and, u8,
}

abbrev pub main_1 : ℕ
main_1 = 0

abbrev pub main_out : ℕ
main_out = 1

abbrev pub main_2 : ℕ
main_2 = 2

abbrev pub main_want_in : ℕ
main_want_in = 4

abbrev pub main_in : ℕ
main_in = 5

abbrev pub execute_bat_state : ℕ
execute_bat_state = 6

abbrev pub main_want_execute_bat : ℕ
main_want_execute_bat = 7

-- `kbc_at_port_t` and `kbc_at_device_t`; `D` is what the commands of the device keep.
pub record Device (D : Type 0) : Type 0 where
  pub wantcmd : ℕ
  pub out_new : Option ℕ
  pub command : ℕ
  pub last_scan_code : ℕ
  pub state : ℕ
  pub cmd_queue_start : ℕ
  pub cmd_queue_end : ℕ
  pub queue_start : ℕ
  pub queue_end : ℕ
  pub flags : ℕ
  pub cmd_queue : ℕ → ℕ
  pub queue : ℕ → ℕ
  pub fifo_mask : ℕ
  pub ignore : ℕ
  pub scan : ℕ
  pub own : D

module _ {D : Type 0} where
  unfoldable pub queue_reset : Bool → Device D → Device D
  queue_reset reset_main k =
      let t =
        if reset_main then record k { queue_start = 0; queue_end = 0; queue = λ _. 0 } else k in
      record t { cmd_queue_start = 0; cmd_queue_end = 0; cmd_queue = λ _. 0 }

  -- The difference of the two positions is taken on bytes.
  unfoldable pub queue_pos : Bool → Device D → ℕ
  queue_pos main k =
      if main
      then u8 (bit_and (u8 (k.queue_end + 256 - k.queue_start)) k.fifo_mask)
      else bit_and (u8 (k.cmd_queue_end + 256 - k.cmd_queue_start)) 0x0F

  unfoldable pub queue_add : ℕ → Bool → Device D → Device D
  queue_add val main k =
      if main
      then record k {
        queue = update k.queue k.queue_end val;
        queue_end = u8 (bit_and (k.queue_end + 1) k.fifo_mask);
      }
      else record k {
        cmd_queue = update k.cmd_queue k.cmd_queue_end val;
        cmd_queue_end = bit_and (k.cmd_queue_end + 1) 0x0F;
      }

  -- A byte goes out; 0xFE, the request to send again, is not remembered.
  unfoldable pub send : ℕ → Device D → Device D
  send val k = record k {
    out_new = some val;
    last_scan_code = if val != 0xFE then val else k.last_scan_code;
  }

  unfoldable pub is_free : Device D → Bool
  is_free k = elim k.out_new [ none ↦ true | some _ ↦ false ]

  -- The statement that three states share.
  unfoldable pub send_answer : Device D → Device D
  unfolding is_free send
  send_answer k =
      if is_free k && k.cmd_queue_start != k.cmd_queue_end
      then record (send (k.cmd_queue k.cmd_queue_start) k) {
        cmd_queue_start = bit_and (k.cmd_queue_start + 1) 0x0F;
      }
      else k

  -- The state after a byte of an answer: `next` once the queue is empty.
  unfoldable pub advance : ℕ → Device D → Device D
  advance next k = if k.cmd_queue_start == k.cmd_queue_end then record k { state = next } else k

  unfoldable pub send_scan : Device D → Device D
  unfolding is_free send
  send_scan k =
      if k.ignore == 0 && (k.scan != 0 && (is_free k && k.queue_start != k.queue_end))
      then record (send (k.queue k.queue_start) k) {
        queue_start = u8 (bit_and (k.queue_start + 1) k.fifo_mask);
      }
      else k

  unfoldable pub poll_main_2 : Device D → Device D
  unfolding send_scan
  poll_main_2 k =
      let t = send_scan k in
      if t.ignore != 0 || (t.scan == 0 || t.wantcmd != 0) then record t { state = main_1 } else t

  unfoldable pub reset : Bool → Device D → Device D
  unfolding queue_reset queue_add
  reset do_fa k =
      let t = record (queue_reset true (record k { out_new = none; wantcmd = 0 })) {
        command = 0x00;
        flags = 0x00;
        ignore = 0;
        last_scan_code = 0x00;
        scan = 1;
      } in
      if do_fa
      then record (queue_add 0xFA false t) { state = main_want_execute_bat }
      else record t { state = execute_bat_state }

  -- `process_cmd` and `execute_bat` are what the device does.
  module _ (process_cmd execute_bat : Device D → Device D) where
    unfoldable pub take_command : Device D → Device D
    take_command k = record (process_cmd (queue_reset false k)) { wantcmd = 0 }

    unfoldable pub poll : Device D → Device D
    unfolding take_command
    poll k =
        if k.state == main_1
        then (if k.wantcmd != 0 then take_command k else record k { state = main_2 })
        else if k.state == main_2
        then poll_main_2 k
        else if k.state == main_out
        then (if k.wantcmd != 0 then take_command k else advance main_2 (send_answer k))
        else if k.state == main_want_in
        then advance main_in (send_answer k)
        else if k.state == main_in
        then (if k.wantcmd != 0 then take_command k else k)
        else if k.state == execute_bat_state
        then execute_bat (record k { state = main_out })
        else if k.state == main_want_execute_bat
        then advance execute_bat_state (send_answer k)
        else k
