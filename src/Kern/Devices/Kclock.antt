-- ===== src/Kern/Devices/Kclock.antt =====
-- jos/kern/kclock.c, and of jos/kern/pmap.c `nvram_read` and `i386_detect_memory`: the size of the memory as
-- the clock chip has it.
use sisotp.Base.{ℕ, ◌+◌, ◌*◌, ◌/◌, ◌^◌, not, ◌==◌, if◌then◌else◌, bit_or}
use sisotp.Kern.Devices.{Dev, return, ◌>>=◌, ◌>>◌, outb, inb}

abbrev pub io_rtc : ℕ
io_rtc = 0x70

unfoldable pub mc146818_read : (reg : ℕ) → Dev ℕ
unfolding outb inb
mc146818_read reg = do outb io_rtc reg; inb (io_rtc + 1)

unfoldable pub mc146818_write : (reg datum : ℕ) → Dev (Unit {0})
unfolding outb
mc146818_write reg datum = do outb io_rtc reg; outb (io_rtc + 1) datum

unfoldable pub nvram_read : (r : ℕ) → Dev ℕ
unfolding mc146818_read
nvram_read r = do
  low ← mc146818_read r
  high ← mc146818_read (r + 1)
  return (bit_or low (high * 2 ^ 8))

-- The memory in kilobytes.
unfoldable pub totalmem : (basemem extmem ext16mem : ℕ) → ℕ
totalmem basemem extmem ext16mem =
    if not (ext16mem == 0)
    then 16 * 1024 + ext16mem
    else (if not (extmem == 0) then 1 * 1024 + extmem else basemem)

-- `npages` and `npages_basemem`.
unfoldable pub i386_detect_memory : Dev (ℕ × ℕ)
unfolding nvram_read totalmem
i386_detect_memory = do
  basemem ← nvram_read 0x15
  extmem ← nvram_read 0x17
  ext16 ← nvram_read 0x34
  return (totalmem basemem extmem (ext16 * 64) / 4, basemem / 4)
