-- ===== src/Kern/Mmu.antt =====
-- jos/inc/mmu.h, inc/memlayout.h and inc/types.h: the constants of the memory layout, the fields
-- of a linear address and of a page table entry, and rounding. Words are numbers below 2 ^ 32.
pub mod Entry
use sisotp.Base.{ℕ, ◌+◌, ◌-◌, ◌*◌, ◌/◌, ◌%◌, ◌^◌, Bool, not, ◌==◌, bit_and, bit_or}

abbrev pub pgsize : ℕ
pgsize = 4096

abbrev pub pgshift : ℕ
pgshift = 12

abbrev pub nptentries : ℕ
nptentries = 1024

abbrev pub npdentries : ℕ
npdentries = 1024

abbrev pub ptsize : ℕ
ptsize = pgsize * nptentries

abbrev pub pte_p : ℕ
pte_p = 0x001

abbrev pub pte_w : ℕ
pte_w = 0x002

abbrev pub pte_u : ℕ
pte_u = 0x004

abbrev pub pte_pwt : ℕ
pte_pwt = 0x008

abbrev pub pte_pcd : ℕ
pte_pcd = 0x010

abbrev pub pte_ps : ℕ
pte_ps = 0x080

abbrev pub pte_avail : ℕ
pte_avail = 0xE00

abbrev pub pte_mapped : ℕ
pte_mapped = 0x200

-- PTE_SYSCALL: PTE_AVAIL | PTE_P | PTE_W | PTE_U.
abbrev pub pte_syscall : ℕ
pte_syscall = bit_or (bit_or (bit_or pte_avail pte_p) pte_w) pte_u

abbrev pub kernbase : ℕ
kernbase = 0xF0000000

abbrev pub iophysmem : ℕ
iophysmem = 0x0A0000

abbrev pub extphysmem : ℕ
extphysmem = 0x100000

abbrev pub mpentry_paddr : ℕ
mpentry_paddr = 0x7000

abbrev pub kstacktop : ℕ
kstacktop = kernbase

abbrev pub kstksize : ℕ
kstksize = 8 * pgsize

abbrev pub kstkgap : ℕ
kstkgap = 8 * pgsize

abbrev pub mmiolim : ℕ
mmiolim = kstacktop - ptsize

abbrev pub mmiobase : ℕ
mmiobase = mmiolim - ptsize

abbrev pub ulim : ℕ
ulim = mmiobase

abbrev pub uvpt : ℕ
uvpt = ulim - ptsize

abbrev pub upages : ℕ
upages = uvpt - ptsize

abbrev pub uenvs : ℕ
uenvs = upages - ptsize

abbrev pub utop : ℕ
utop = uenvs

abbrev pub uxstacktop : ℕ
uxstacktop = utop

abbrev pub ustacktop : ℕ
ustacktop = utop - 2 * pgsize

abbrev pub utemp : ℕ
utemp = ptsize

abbrev pub vga_user : ℕ
vga_user = utemp + pgsize

-- PGNUM(la): la >> PTXSHIFT.
unfoldable pub pgnum : ℕ → ℕ
pgnum la = la / 2 ^ 12

-- PDX(la): (la >> PDXSHIFT) & 0x3FF.
unfoldable pub pdx : ℕ → ℕ
pdx la = bit_and (la / 2 ^ 22) 0x3FF

-- PTX(la): (la >> PTXSHIFT) & 0x3FF.
unfoldable pub ptx : ℕ → ℕ
ptx la = bit_and (la / 2 ^ 12) 0x3FF

-- PTE_ADDR(pte): pte & ~0xFFF.
unfoldable pub pte_addr : ℕ → ℕ
pte_addr pte = bit_and pte 0xFFFFF000

-- PGADDR(d, t, o): d << PDXSHIFT | t << PTXSHIFT | o.
unfoldable pub pgaddr : ℕ → ℕ → ℕ → ℕ
pgaddr d t o = bit_or (bit_or (d * 2 ^ 22) (t * 2 ^ 12)) o

-- The test `word & flag` of the source.
unfoldable pub flag : ℕ → ℕ → Bool
flag word mask = not (bit_and word mask == 0)

-- ROUNDDOWN(a, n) and ROUNDUP(a, n), in uint32_t.
unfoldable pub rounddown : ℕ → ℕ → ℕ
rounddown a n = a - a % n

unfoldable pub roundup : ℕ → ℕ → ℕ
unfolding rounddown
roundup a n = rounddown ((a + n - 1) % 2 ^ 32) n
