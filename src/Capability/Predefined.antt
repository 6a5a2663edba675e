-- ===== src/Capability/Predefined.antt =====
-- kernel/src/capability/token.rs, `mod predefined`: the capabilities that the kernel knows.
use omniagent_os.Base.{List, [], ◌∷◌}
use omniagent_os.Capability.Token.{CapabilityEntry}

-- "read_files"
abbrev pub read_files : CapabilityEntry
read_files = record {
  capability_id = 0;
  name = 114 ∷ 101 ∷ 97 ∷ 100 ∷ 95 ∷ 102 ∷ 105 ∷ 108 ∷ 101 ∷ 115 ∷ [];
  flags = 3;
}

-- "write_files"
abbrev pub write_files : CapabilityEntry
write_files = record {
  capability_id = 1;
  name = 119 ∷ 114 ∷ 105 ∷ 116 ∷ 101 ∷ 95 ∷ 102 ∷ 105 ∷ 108 ∷ 101 ∷ 115 ∷ [];
  flags = 1;
}

-- "execute"
abbrev pub execute : CapabilityEntry
execute = record {
  capability_id = 2;
  name = 101 ∷ 120 ∷ 101 ∷ 99 ∷ 117 ∷ 116 ∷ 101 ∷ [];
  flags = 1;
}

-- "network"
abbrev pub network : CapabilityEntry
network = record {
  capability_id = 3;
  name = 110 ∷ 101 ∷ 116 ∷ 119 ∷ 111 ∷ 114 ∷ 107 ∷ [];
  flags = 3;
}

-- "create_agent"
abbrev pub create_agent : CapabilityEntry
create_agent = record {
  capability_id = 4;
  name = 99 ∷ 114 ∷ 101 ∷ 97 ∷ 116 ∷ 101 ∷ 95 ∷ 97 ∷ 103 ∷ 101 ∷ 110 ∷ 116 ∷ [];
  flags = 0;
}

-- "kill_agent"
abbrev pub kill_agent : CapabilityEntry
kill_agent = record {
  capability_id = 5;
  name = 107 ∷ 105 ∷ 108 ∷ 108 ∷ 95 ∷ 97 ∷ 103 ∷ 101 ∷ 110 ∷ 116 ∷ [];
  flags = 0;
}

-- "send_message"
abbrev pub send_message : CapabilityEntry
send_message = record {
  capability_id = 6;
  name = 115 ∷ 101 ∷ 110 ∷ 100 ∷ 95 ∷ 109 ∷ 101 ∷ 115 ∷ 115 ∷ 97 ∷ 103 ∷ 101 ∷ [];
  flags = 3;
}

-- "receive_message"
abbrev pub receive_message : CapabilityEntry
receive_message = record {
  capability_id = 7;
  name = 114 ∷ 101 ∷ 99 ∷ 101 ∷ 105 ∷ 118 ∷ 101 ∷ 95 ∷ 109 ∷ 101 ∷ 115 ∷ 115 ∷ 97 ∷ 103 ∷ 101 ∷ [];
  flags = 3;
}

-- "manage_system"
abbrev pub manage_system : CapabilityEntry
manage_system = record {
  capability_id = 8;
  name = 109 ∷ 97 ∷ 110 ∷ 97 ∷ 103 ∷ 101 ∷ 95 ∷ 115 ∷ 121 ∷ 115 ∷ 116 ∷ 101 ∷ 109 ∷ [];
  flags = 0;
}

-- "access_hardware"
abbrev pub access_hardware : CapabilityEntry
access_hardware = record {
  capability_id = 9;
  name = 97 ∷ 99 ∷ 99 ∷ 101 ∷ 115 ∷ 115 ∷ 95 ∷ 104 ∷ 97 ∷ 114 ∷ 100 ∷ 119 ∷ 97 ∷ 114 ∷ 101 ∷ [];
  flags = 0;
}

-- "manage_security"
abbrev pub manage_security : CapabilityEntry
manage_security = record {
  capability_id = 10;
  name = 109 ∷ 97 ∷ 110 ∷ 97 ∷ 103 ∷ 101 ∷ 95 ∷ 115 ∷ 101 ∷ 99 ∷ 117 ∷ 114 ∷ 105 ∷ 116 ∷ 121 ∷ [];
  flags = 0;
}

abbrev pub all_predefined : List CapabilityEntry
all_predefined =
    read_files ∷ write_files ∷ execute ∷ network ∷ create_agent ∷ kill_agent ∷ send_message
    ∷ receive_message ∷ manage_system ∷ access_hardware ∷ manage_security ∷ []
