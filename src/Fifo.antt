-- ===== src/Fifo.antt =====
-- src/disk/fifo.c, the byte queue of the floppy controller. The queue is never NULL here and has its
-- buffer, and a length below 1 is 0; `allocated` says whether an allocation succeeds.
pub mod Queue
pub mod Order
use pculator.Base.{
  ℕ, ◌+◌, ◌-◌, ◌%◌, Bool, not, ◌||◌, Option, none, some, ◌==◌, ◌!=◌, ltb, leb, if◌then◌else◌,
  update,
}

pub record Fifo : Type 0 where
  pub buf : ℕ → ℕ
  pub len : ℕ
  pub start : ℕ
  pub end : ℕ
  pub full : ℕ
  pub empty : ℕ
  pub overrun : ℕ
  pub ready : ℕ
  pub trigger_len : ℕ

unfoldable pub get_count : Fifo → ℕ
get_count f =
    if f.end == f.start
    then (if f.full != 0 then f.len else 0)
    else if ltb f.start f.end
    then f.end - f.start
    else f.len - f.start + f.end

-- `fifo->ready = (fifo_get_count(fifo) >= fifo->trigger_len) ? 1 : 0`
unfoldable pub set_ready : Fifo → Fifo
set_ready f = record f { ready = if leb f.trigger_len (get_count f) then 1 else 0 }

unfoldable pub put : ℕ → Fifo → Fifo
put val f =
    if leb f.len 0
    then f
    else if f.full != 0
    then record f { overrun = 1 }
    else (let end' = (f.end + 1) % f.len in
        set_ready (record f {
          buf = update f.buf f.end val;
          end = end';
          empty = 0;
          full = if end' == f.start then 1 else f.full;
        }))

unfoldable pub take : Fifo → ℕ × Fifo
take f =
    if f.empty != 0 || leb f.len 0
    then (0, f)
    else (let start' = (f.start + 1) % f.len in
        (
          f.buf f.start,
          set_ready (record f {
            start = start';
            full = 0;
            empty = if start' == f.end then 1 else f.empty;
          }),
        ))

unfoldable pub set_trigger_len : ℕ → Fifo → Fifo
set_trigger_len trigger_len f =
    let raised = if ltb trigger_len 1 then 1 else trigger_len in
    set_ready (record f { trigger_len = if ltb f.len raised then f.len else raised })

-- `memset` clears the bytes of the buffer.
unfoldable pub clear : Fifo → Fifo
clear f = record f {
  start = 0;
  end = 0;
  empty = 1;
  full = 0;
  overrun = 0;
  ready = 0;
  buf = λ i. if ltb i f.len then 0 else f.buf i;
}

unfoldable pub set_len : Bool → ℕ → Fifo → Fifo
set_len allocated len f = if ltb len 1 || not allocated then f else clear (record f { len = len })

unfoldable pub make : Bool → ℕ → Option Fifo
make allocated len =
    if ltb len 1 || not allocated
    then none
    else some (
        clear (record {
          buf = λ _. 0;
          len = len;
          start = 0;
          end = 0;
          full = 0;
          empty = 0;
          overrun = 0;
          ready = 0;
          trigger_len = len;
        }))
